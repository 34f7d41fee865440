-- ===== src/Cli.antt =====
-- cmd/raftra-cli: the command-line client. Cli/Nodes.antt is client.go without its request loop,
-- Cli/Request.antt the requests to one node and to the cluster, and Cli/Commands.antt the commands. The
-- terminal (ui.go, the spinner, colours and boxes) is left out; what a command prints is a value.
pub mod Nodes
pub mod Request
pub mod Status
pub mod Commands
