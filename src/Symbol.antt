-- ===== src/Symbol.antt =====
-- langserver/symbol.go and lspx.go: searching symbols. Query parses what a user types, Score ranks a
-- symbol against it, and the modules below collect and order the results. Texts are ASCII: case and
-- white space outside it are not modelled.
pub mod Query
pub mod Descriptor
pub mod Score
pub mod Results
pub mod Declared
pub mod Search
pub mod Examples
