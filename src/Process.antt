-- ===== src/Process.antt =====
-- The processes of the Go extension: go/cmd/main.go (Serve), which serves until a signal, and
-- go/pkg/server with the commands go/cmd/docker and go/cmd/start-tee around it (Launch), with the
-- environment of the latter (StartTee).
pub mod Serve
pub mod Launch
pub mod StartTee
mod Tests
