-- ===== src/Tests/Threads.antt =====
-- The rounds of the background threads, at a small server.
use crimson_cache.Base.{◌∷◌, List, ◌+◌, ◌≤◌, ◌≡◌, refl, true, false, [], some, arith, length}
use mathlib.Core.List.{flatten}
use crimson_cache.CString.{Bytes, codes, isspace}
use crimson_cache.Dict.Defs.{DictEntry}
use crimson_cache.Dict.Valid.{view}
use crimson_cache.Dict.Access.{Becomes, update}
use crimson_cache.Persistence.Format.{is_string}
use crimson_cache.Replication.Sync.{needs_quotes, set_line, sync_entry}
use crimson_cache.Commands.Keyspace.{text_object}
use crimson_cache.Config.{load_default_config}
use crimson_cache.Dispatch.Execute.{execute_command}
use crimson_cache.Server.{get_client_by_socket}
use crimson_cache.Process.{Process}
use crimson_cache.Replication.{state_sync, state_connected}
use crimson_cache.Process.Follow.{replication_thread, available, recv, room}
use crimson_cache.Process.Steps.{accepted, step, happens, here, next}
use crimson_cache.Process.Lengths.{received}
use crimson_cache.Process.Bounds.{Reach-received_bounded}
use crimson_cache.Process.Sent.{CanSend}
use crimson_cache.Process.Synced.{stored_at, sync_entry-replication_thread}
use crimson_cache.Tests.Machines.{world, worlds, served, served-IsValid}

-- A server with two changes since its last save.
abbrev running : Process
running = record {
  server = record served { changes_since_save = 2 };
  config = load_default_config;
  last_save = 100;
  pending = [];
  server_running = true;
}

-- A client connects, and then the primary sends something.
Reach-received_bounded_example :
    length (step (accepted true 6) running).1.pending
      + length (
          received (
            recv
              (room
                (step (accepted true 6) running).1.config
                (length (step (accepted true 6) running).1.pending))
              (available (codes "set a 1"))))
      + 1
    ≤ 1024
Reach-received_bounded_example =
    Reach-received_bounded running (step (accepted true 6) running).1 1024
      (available (codes "set a 1")) (unfold load_default_config in refl) (omega arith) refl
      (next here (happens (accepted true 6) (refl, unfold get_client_by_socket in refl)))

abbrev entry : DictEntry
entry = record { key = codes "a"; val = text_object (codes "x y") 0 3 }

entry-CanSend : CanSend entry
unfolding isspace is_string needs_quotes set_line
entry-CanSend = record {
  key = ((λ e. omega arith), (refl, tt));
  value =
      (((λ e. omega arith), ((λ e. omega arith), ((λ e. omega arith), tt))), (λ e. omega arith));
  plain_key = ((omega arith, (λ e. omega arith), (λ e. omega arith)), tt);
  plain_value = (
    (omega arith, (λ e. omega arith), (λ e. omega arith)),
    (
      (omega arith, (λ e. omega arith), (λ e. omega arith)),
      ((omega arith, (λ e. omega arith), (λ e. omega arith)), tt),
    ),
  );
  lasting = refl;
  string = refl;
  short = omega arith;
}

-- A replica in its synchronization.
abbrev following : Process
following = record running {
  server = record running.server {
    repl = record running.server.repl { is_primary = false; state = state_sync };
  };
}

sync_entry-replication_thread_example :
    Becomes
      (replication_thread
        (execute_command 2)
        (λ n. worlds)
        (available (flatten (sync_entry world.replica.beyond (world.replica.steps 0 0) entry)))
        following).1.server.db
      (update
        (view following.server.db)
        (codes "a")
        (some (text_object (codes "x y") 0 (stored_at world))))
    × ((replication_thread
          (execute_command 2)
          (λ n. worlds)
          (available (flatten (sync_entry world.replica.beyond (world.replica.steps 0 0) entry)))
          following).1.pending
        ≡ [])
sync_entry-replication_thread_example =
    sync_entry-replication_thread entry entry-CanSend world.replica.beyond (world.replica.steps 0 0)
      (λ n. worlds) following refl
      (record {
        db = served-IsValid.db;
        channels = served-IsValid.channels;
        clients = served-IsValid.clients;
        subscribers = served-IsValid.subscribers;
      })
      refl refl refl (unfold set_line needs_quotes load_default_config in omega arith) refl refl
      (record { object = refl; text = refl; entry = refl })

-- A line that is cut in its line end.
abbrev pieces : List Bytes
pieces = codes "set a 1\r" ∷ codes "\nset b" ∷ codes " 2\r\n" ∷ []

abbrev connected : Process
connected = record following {
  server = record following.server {
    repl = record following.server.repl { state = state_connected };
  };
}
