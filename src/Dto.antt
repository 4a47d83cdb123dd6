-- ===== src/Dto.antt =====
-- shared/dto: the paging of lists and the addresses of requests.
pub mod Paging
pub mod Url
