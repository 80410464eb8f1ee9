-- ===== src/Database.antt =====
-- What the services use of PostgreSQL through Prisma (libs/database/src/prisma.service.ts and the
-- generated client), as an interface, and an association list that meets it.
pub mod Table
pub mod Rows
