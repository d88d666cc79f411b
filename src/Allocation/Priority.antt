-- ===== src/Allocation/Priority.antt =====
-- rust/scanner_core/src/source_allocation.rs: `priority`, the rank of a block of pieces.
use ai_daily_report.Prelude.{
  ℕ, Bool, true, false, List, [], ◌∷◌, Text, codes, any, leb, ◌&&◌, has_infix, if◌then◌else◌,
}
use ai_daily_report.Audit.Types.{ContentUnitKind}
use ai_daily_report.Allocation.Pieces.{Piece, useful}

abbrev pub is_total : ContentUnitKind → Bool
is_total ContentUnitKind.total = true
is_total _ = false

abbrev pub is_table_row : ContentUnitKind → Bool
is_table_row ContentUnitKind.table_row = true
is_table_row _ = false

-- Words that qualify a statement.
abbrev qualifiers : List Text
qualifiers =
    codes "不得"
    ∷ codes "不能"
    ∷ codes "不代表"
    ∷ codes "不等于"
    ∷ codes "不说明"
    ∷ codes "未经"
    ∷ codes "未确认"
    ∷ codes "待确认"
    ∷ codes "例外"
    ∷ codes "除外"
    ∷ codes "无效"
    ∷ codes "必须"
    ∷ codes "断言"
    ∷ codes "为空"
    ∷ codes "两行"
    ∷ codes "不可"
    ∷ codes "不再"
    ∷ codes "相对"
    ∷ codes "基准"
    ∷ codes "并行"
    ∷ codes "二选一"
    ∷ codes "都要"
    ∷ codes "assert"
    ∷ codes "must not"
    ∷ codes "does not prove"
    ∷ codes "unconfirmed"
    ∷ codes "exception"
    ∷ []

-- Words that stand with a quantity.
abbrev markers : List Text
markers =
    codes "#REF!"
    ∷ codes "#VALUE!"
    ∷ codes "#DIV/0!"
    ∷ codes "累计"
    ∷ codes "超过"
    ∷ codes "阈值"
    ∷ codes "合计"
    ∷ codes "总计"
    ∷ codes "统计"
    ∷ codes "生成时间"
    ∷ codes "成立日期"
    ∷ codes "成立时间"
    ∷ codes "社会信用代码"
    ∷ codes "编制单位"
    ∷ codes "报告时间"
    ∷ codes "实测"
    ∷ codes "共"
    ∷ codes "数量"
    ∷ codes "测试"
    ∷ codes "覆盖"
    ∷ codes "节点"
    ∷ codes "档位"
    ∷ codes "金额档"
    ∷ codes "通过"
    ∷ codes "失败"
    ∷ codes "例外"
    ∷ codes "除外"
    ∷ codes "不得"
    ∷ codes "threshold"
    ∷ codes ">="
    ∷ codes "<="
    ∷ codes "≥"
    ∷ codes "≤"
    ∷ codes "subtotal"
    ∷ codes "total"
    ∷ codes "count"
    ∷ codes "passed"
    ∷ codes "failed"
    ∷ []

abbrev has_digit : Text → Bool
has_digit text = any (λ c. leb b'0' c && leb c b'9') text

abbrev has_any : List Text → Text → Bool
has_any words text = any (λ word. has_infix word text) words

unfoldable pub priority : List Piece → ℕ
unfolding useful
priority ps =
    if any (λ p. is_total p.kind) ps
    then 0
    else if any (λ p. is_table_row p.kind && has_digit p.text) ps
    then 1
    else if any (λ p. has_digit p.text && has_any markers p.text) ps
    then 1
    else if any (λ p. has_any qualifiers p.text) ps
    then 2
    else if any (λ p. is_table_row p.kind) ps
    then 3
    else if any (λ p. useful p.kind && has_digit p.text) ps
    then 3
    else 4
