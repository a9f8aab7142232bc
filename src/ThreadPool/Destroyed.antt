-- ===== src/ThreadPool/Destroyed.antt =====
-- Which threads threadpool_destroy waits for.
use safe_transmission.ThreadPool.System.{System}
