-- ===== src/Old.antt =====
-- The servers before the present one: server/old_main.c and server/old_solve_command.c. What they
-- have in common with server/main.c and server/solve_command.c is taken from Dispatch and Commands.
pub mod Solve
pub mod Main
pub mod Drops
pub mod Tests
