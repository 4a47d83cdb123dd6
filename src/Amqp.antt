-- ===== src/Amqp.antt =====
-- core/amqp: messages over RabbitMQ, from the names of the queues to the settlement of each message.
pub mod Cache
pub mod Address
pub mod Delivery
pub mod Credit
pub mod Sender
pub mod Management
pub mod Reconnect
pub mod Receiver
pub mod Replacement
pub mod Flood
pub mod Unheard
pub mod Reply
