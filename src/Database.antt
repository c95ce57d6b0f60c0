-- ===== src/Database.antt =====
-- app/database.py: the stored rows and the functions that read and write them. SQL runs in a database
-- that is not part of the repository; its tables are lists of rows here, newest last, and each query
-- is the function that its text describes.
pub mod Rows
pub mod Record
pub mod Paging
pub mod RuleSets
pub mod Summary
pub mod Examples
