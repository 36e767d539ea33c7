-- ===== src/Catalog.antt =====
-- The catalog helpers of the `*_read_delta` workloads (workloads/_df_catalog.py): the registration
-- script and the rewriting of table names in a query.
pub mod Token
pub mod Qualify
pub mod Clause
pub mod Stack
pub mod Laws
