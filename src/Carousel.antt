-- ===== src/Carousel.antt =====
-- client/src/features/records/carousel: the keys of the views of a record, the choice of a view
-- when the record changes, the rows of the MARC table, and the way from record to record.
pub mod Key
pub mod MarcTable
pub mod MarcRow
pub mod View
pub mod Navigation
pub mod Header
pub mod PidLinks
mod Tests
