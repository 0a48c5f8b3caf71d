-- ===== src/Admin/Commands.antt =====
-- Which statements are handled, and what the server is asked.
use my_proxy.Base.{◌≡◌, Bytes, arith}
use my_proxy.Postgres.{Postgres}
use my_proxy.Admin.{is_replication_command, handle_replication_command}

-- Every text is handled as a statement on replication exactly where the test for such a statement
-- says so, whatever the server answers.
pub handle_replication_command-is_replication_command :
    {C R : Type 0} (pg : Postgres C R) (sql : Bytes) (c : C)
    → (handle_replication_command pg sql c).1.0 ≡ is_replication_command sql
unfolding handle_replication_command is_replication_command
handle_replication_command-is_replication_command pg sql c = ground arith
