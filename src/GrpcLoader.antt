-- ===== src/GrpcLoader.antt =====
-- grpcloader/grpcloader.go: the client of the package loader service.
pub mod Proto
pub mod Dial
pub mod Buffer
pub mod Tests
