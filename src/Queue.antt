-- ===== src/Queue.antt =====
-- The packet queues (net/queue/queue.go): the linked list under a mutex and a condition variable,
-- and the buffered channel. A thread that calls `Pull` may wait, so the linked queue is a
-- relation between states, one step for what a thread does while it holds the lock.
pub mod Linked
pub mod Channel
