-- ===== src/Tests/Dispatched.antt =====
-- Whole commands on a server with one client in a transaction.
use crimson_cache.Base.{◌≡◌, refl}
use crimson_cache.CString.{codes, isspace, tolower}
use crimson_cache.Dispatch.Execute.{execute_command}
use crimson_cache.Dispatch.Valid.{IsValid}
use crimson_cache.Dispatch.Preserve.{execute_command-IsValid, execute_command_depth}
use crimson_cache.Tokenizer.{tokenize_command, strip_newline, scan, push_token}
use crimson_cache.Server.{get_client_by_socket}
use crimson_cache.Commands.Keyspace.{cmd_ok}
use crimson_cache.Dispatch.Sequence.{exec_outcome, execute_command-one_by_one}
use crimson_cache.Tests.Machines.{worlds, busy, served, served-IsValid}

execute_command-IsValid_example : IsValid (execute_command 2 worlds 5 (codes "exec") served).server
execute_command-IsValid_example =
    execute_command-IsValid 2 worlds 5 (codes "exec") served served-IsValid

execute_command_depth_example :
    execute_command 7 worlds 5 (codes "exec") served
    ≡ execute_command 2 worlds 5 (codes "exec") served
execute_command_depth_example =
    execute_command_depth 5 worlds 5 (codes "exec") served served-IsValid

execute_command-one_by_one_example : execute_command 2 worlds 5 (codes "EXEC") served ≡ record {
  result = cmd_ok;
  server = (exec_outcome worlds busy served).1;
  sent = (exec_outcome worlds busy served).0;
}
execute_command-one_by_one_example =
    execute_command-one_by_one worlds busy served (codes "EXEC") (codes "EXEC") served-IsValid
      (unfold get_client_by_socket in refl) refl refl
      (unfold tokenize_command strip_newline scan push_token isspace in refl)
      (unfold tolower in refl)
