-- ===== src/Tests/Machines.antt =====
-- A machine on which every call succeeds, for the runs of whole commands.
use crimson_cache.Base.{
  ℕ, true, false, [], ◌∷◌, none, some, ◌≡◌, refl, ◌==◌, arith, inl, inr, Bool-cases, subst,
}
use crimson_cache.CString.{codes, isspace, str_eq, tolower}
use crimson_cache.Number.{pos}
use crimson_cache.Replication.{complete}
use crimson_cache.Replication.Roles.{replication_init}
use crimson_cache.Persistence.Load.{missing}
use crimson_cache.Transaction.{Client}
use crimson_cache.Dispatch.{Server, World, Worlds}
use crimson_cache.Dispatch.Valid.{IsValid, IsSession}
use crimson_cache.Dispatch.Preserve.{queueable}
use crimson_cache.Dispatch.Execute.{is_tx_command}
use crimson_cache.Tokenizer.{tokenize_command, strip_newline, scan, push_token}
use crimson_cache.Tokenizer.RoundTrip.{ample}
use crimson_cache.Server.{get_client_by_socket}
use crimson_cache.Server.Clients.{with_socket}
use crimson_cache.PubSub.{find_channel, is_subscribed}
use crimson_cache.PubSub.Channels.{subscribed, members}
use crimson_cache.Process.{Machine}
use crimson_cache.Tests.{given, calm, empty, empty_lem}

abbrev pub world : World
world = record {
  input_copied = true;
  tokens = record { array_granted = true; grow_granted = λ n. true; copy_granted = λ n. true };
  env = calm;
  queue = record { queue_granted = true; copy_granted = true };
  array_granted = true;
  copies_granted = λ n. true;
  files = record { opens = true; writes = λ n. true; lost_after = none; renames = true };
  save_now = 7;
  forks = true;
  subs = λ n. record { channel_granted = true; name_granted = true; node_granted = true };
  connect = λ host port. some 9;
  peer_ip = codes "10.0.0.2";
  replica = record {
    replica_granted = true;
    ip_granted = true;
    now = 7;
    beyond = λ n. [];
    steps = λ n m. record {
      now_test = 7;
      set_completes = true;
      now_expire = 7;
      expire_completes = true;
    };
  };
  role_now = λ n. 7;
  feed_outcome = λ n. complete;
  feed_clock = λ n. 7;
  feed_granted = true;
}

abbrev pub worlds : Worlds
worlds p = world

-- A client in a transaction with one command, and a free slot.
abbrev pub busy : Client
busy = record {
  socket = 5;
  in_transaction = true;
  transaction_errors = false;
  queued_commands = codes "set a 1" ∷ [];
  queue_capacity = 10;
}

abbrev pub served : Server
served = record {
  db = empty;
  clients = some busy ∷ none ∷ [];
  channels = [];
  repl = replication_init (λ n. n);
  changes_since_save = 0;
  port = pos 6379;
  dump = none;
  children = [];
}

abbrev pub machine : Machine
machine = record {
  dict_granted = true;
  table_granted = true;
  clients_granted = true;
  random = λ n. n;
  now = 100;
  load = λ n. record {
    now_test = 100;
    now_value = 100;
    now_add = 100;
    key_granted = true;
    value_granted = true;
    object_granted = true;
    add_memory = given;
    overrun_db = λ d. d;
  };
  opened = missing;
  dump = none;
}

busy-IsSession : IsSession busy
busy-IsSession = record {
  queue = record { fits = omega arith; idle_queue = λ h. cc; idle_errors = λ h. cc };
  connected = refl;
  queued = (
    queueable ample (codes "set a 1") (codes "set") (codes "a" ∷ codes "1" ∷ [])
        (unfold tokenize_command strip_newline scan push_token isspace in refl)
        (unfold is_tx_command str_eq tolower in refl),
    tt,
  );
}

busy_found :
    (sock : ℕ) (c : Client) → get_client_by_socket sock served.clients ≡ some c → IsSession c
unfolding get_client_by_socket
busy_found sock c e = elim (Bool-cases (5 == sock)) [
  | inl here ↦
      let same : busy ≡ c = cc (rw here at e) in subst (λ x. IsSession x) same busy-IsSession
  | inr other ↦ cc (rw other at e)
]

pub served-IsValid : IsValid served
unfolding with_socket subscribed members find_channel is_subscribed
served-IsValid = record {
  db = record { valid = empty_lem.valid; unlimited = refl };
  channels = record { once = tt };
  clients = record {
    apart = record { apart = λ q. ground arith };
    each = λ sock c e. busy_found sock c e;
  };
  subscribers = λ q n h. cc;
}
