-- ===== src/Shared.antt =====
-- shared/business/auth and shared/dto: the data that the services exchange.
pub mod SystemCode
pub mod SessionType
pub mod Flow
pub mod Token
pub mod Session
pub mod Response
