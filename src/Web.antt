-- ===== src/Web.antt =====
-- pghoard/webserver.py: the requests, the files that they fetch ahead, and their answers.
pub mod Server
pub mod Prefetch
pub mod Download
pub mod Requests
