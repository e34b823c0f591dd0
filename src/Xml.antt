-- ===== src/Xml.antt =====
-- src/ast/lang/xml.rs and src/utils/xml_loader.rs: mappers in XML.
pub mod Loader
pub mod Decode
pub mod Mapper
pub mod Template
pub mod Loads
pub mod Picks
pub mod Decoding
pub mod Defined
pub mod RoundTrip
pub mod Inclusion
pub mod Includes
mod Tests
