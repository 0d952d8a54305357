-- ===== src/Tests.antt =====
-- The theorems at concrete inputs.
mod Bitmaps
mod Handler
mod Files
mod Merge
mod Service
mod Query
mod Process
mod Build
mod Answers
mod Store
mod Serve
mod Memory
