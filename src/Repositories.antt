-- ===== src/Repositories.antt =====
-- core/repositories: what each query does to the tables.
pub mod Invoices
pub mod Events
pub mod Vans
pub mod Organisations
pub mod Credentials
pub mod Effects
pub mod Reads
