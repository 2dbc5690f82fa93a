-- ===== src/Metrics.antt =====
-- The language of metrics: paths, schemas, YAML documents, compiled plans and their execution.
pub mod Paths
pub mod Printed
pub mod Schema
pub mod Yaml
pub mod Compiler
pub mod Extractor
pub mod Conforms
pub mod Typed
pub mod Safety
pub mod Keys
pub mod Hazards
pub mod Service
pub mod Inserted
pub mod Agreement
pub mod Compile
pub mod Plain
pub mod Prepared
mod Tests
