-- ===== src/Threads/Resume.antt =====
-- The return from thread_yield in threads/thread.c, when the context of the caller is set again.
