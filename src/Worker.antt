-- ===== src/Worker.antt =====
-- app/worker.py: the Kafka consumer that hands messages to the processor, one partition in order.
pub mod Handle
pub mod Outcomes
pub mod Letters
pub mod Retries
pub mod Partition
pub mod Ordered
pub mod Flow
pub mod Ending
pub mod Pausing
pub mod Assignment
pub mod Run
pub mod Examples
