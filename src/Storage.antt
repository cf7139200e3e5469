-- ===== src/Storage.antt =====
-- The files and devices that the vault classes of src/phasmid work on: the bytes of one file with
-- seek, read and write, the calls of os.urandom, and the exceptions that the classes raise or catch.
pub mod File
mod Machine
pub mod Sample
unfoldable pub use File.*
unfoldable pub use Machine.*
