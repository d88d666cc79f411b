-- ===== src/Examples.antt =====
-- Tests of the definitions and instances of the theorems, at small inputs.
mod Samples
mod Planning
mod Excerpts
mod Deciding
mod Sections
mod Building
mod Parsing
mod Omitting
mod Storing
mod Allocating
mod Contexts
mod Admitting
