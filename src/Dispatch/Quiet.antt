-- ===== src/Dispatch/Quiet.antt =====
-- The commands that touch neither the client list nor the depth of the calls: all but MULTI, EXEC and
-- DISCARD.
pub mod Rows
pub mod Lines
use crimson_cache.Base.{
  ℕ, ◌+◌, ◌≡◌, refl, sym, ap, subst, ◌∙◌, Bool, true, false, not, ◌&&◌, ◌||◌, List, [], ◌∷◌, Option,
  none, some, arith, ltb, ◌==◌, if◌then◌else◌, if_either, length, get_or, map, All, inl, inr,
  Bool-cases, Option-cases,
}
use crimson_cache.CString.{Bytes, codes, str_eq, str_eq_iff, strcasecmp_eq, tolower}
use crimson_cache.Number.{ℤ, pos, negsuc, atoi}
use crimson_cache.Server.{Slots, get_client_by_socket}
use crimson_cache.Transaction.{Client}
use crimson_cache.Server.Clients.{found-socket}
use crimson_cache.PubSub.{Channel, Output}
use crimson_cache.PubSub.Channels
use crimson_cache.PubSub.Kept.{
  Concerns, pubsub_subscribe_client-Concerns, pubsub_unsubscribe_client-Concerns,
}
use crimson_cache.Dict.Add.{IsSound}
use crimson_cache.Commands.Keyspace.{Outcome, cmd_ok}
use crimson_cache.Commands.Sound.{
  ping_command-IsSound, set_command-IsSound, get_command-IsSound, del_command-IsSound,
  exists_command-IsSound, expire_command-IsSound, ttl_command-IsSound, incr_command-IsSound,
}
use crimson_cache.Dispatch.{Server, World, Worlds, Ran, Executor, on_db, is_open}
use crimson_cache.Dispatch.Handlers.{
  save_command, background_save, bgsave_command, replicaof_command, role_command, replconf_command,
  subscribe_command, unsubscribe_command, publish_command,
}
use crimson_cache.Dispatch.Table.{
  Handler, ping, set, get, del, exists, expire, ttl, save, bgsave, replicaof, role, incr, replconf,
  multi, exec, discard, subscribe, unsubscribe, publish, CommandDef, commands, find_command,
  wrong_arity, call_handler,
}
use crimson_cache.Dispatch.Execute.{
  is_tx_command, client_of, in_transaction, queueing_client, run_found, propagate, should_propagate,
  run_command, execute_words, execute_tokens, execute_with,
}
use crimson_cache.Dispatch.Valid.{IsValid, HasSessions, AreKnown, is_some}

-- What a command leaves that keeps the client list, and the server well formed.
pub record IsQuiet (s : Server) (r : Ran) : Type 0 where
  pub valid : IsValid r.server
  pub same : r.server.clients ≡ s.clients

module _ (s : Server) (v : IsValid s) where
  -- A command that leaves the database and the channels as they are.
  kept :
      (r : Ran)
      → r.server.db ≡ s.db
      → r.server.channels ≡ s.channels
      → r.server.clients ≡ s.clients
      → IsQuiet s r
  kept r db channels clients = record {
    valid = record {
      db = subst (λ d. IsSound d) (sym db) v.db;
      channels = subst (λ cs. Channels.IsValid cs) (sym channels) v.channels;
      clients = subst (λ cs. HasSessions cs) (sym clients) v.clients;
      subscribers =
          subst (λ cs. AreKnown cs r.server.clients) (sym channels)
            (subst (λ slots. AreKnown s.channels slots) (sym clients) v.subscribers);
    };
    same = clients;
  }

  on_db-IsQuiet : (sock : ℕ) (o : Outcome) → IsSound o.db → IsQuiet s (on_db sock s o)
  on_db-IsQuiet sock o sound = record {
    valid = record {
      db = sound;
      channels = v.channels;
      clients = v.clients;
      subscribers = v.subscribers;
    };
    same = refl;
  }

  save_command-IsQuiet : (w : World) (sock : ℕ) → IsQuiet s (save_command w sock s)
  unfolding save_command
  save_command-IsQuiet w sock = kept _ (ground arith) (ground arith) (ground arith)

  bgsave_command-IsQuiet : (w : World) (sock : ℕ) → IsQuiet s (bgsave_command w sock s)
  unfolding bgsave_command background_save
  bgsave_command-IsQuiet w sock = kept _ (ground arith) (ground arith) (ground arith)

  replicaof_command-IsQuiet :
      (w : World) (sock : ℕ) (argv : List Bytes) → IsQuiet s (replicaof_command w sock argv s)
  unfolding replicaof_command
  replicaof_command-IsQuiet w sock argv = kept _ (ground arith) (ground arith) (ground arith)

  replconf_command-IsQuiet :
      (w : World) (sock : ℕ) (argv : List Bytes) → IsQuiet s (replconf_command w sock argv s)
  unfolding replconf_command
  replconf_command-IsQuiet w sock argv = kept _ (ground arith) (ground arith) (ground arith)

  publish_command-IsQuiet : (sock : ℕ) (argv : List Bytes) → IsQuiet s (publish_command sock argv s)
  unfolding publish_command
  publish_command-IsQuiet sock argv = kept _ (ground arith) (ground arith) (ground arith)

  -- The subscriptions of a client that was found.
  concerned :
      (sock : ℕ) (c : Client)
      → get_client_by_socket sock s.clients ≡ some c
      → (cs : List Channel) (sent : Output) → Concerns c.socket s.channels cs
      → IsQuiet s (record { result = cmd_ok; server = record s { channels = cs }; sent = sent })
  concerned sock c e cs sent k =
      let home = (found-socket sock s.clients c e).0 in
      let there : is_some (get_client_by_socket c.socket s.clients) ≡ true =
        ap (λ (n : ℕ). is_some (get_client_by_socket n s.clients)) home ∙ ap is_some e in
      record {
        valid = record {
          db = v.db;
          channels = k.valid;
          clients = v.clients;
          subscribers = λ q n h. elim (k.others q n h) [
            | inl same ↦
                ap (λ (n : ℕ). is_some (get_client_by_socket n s.clients)) (sym same) ∙ there
            | inr before ↦ v.subscribers q n before
          ];
        };
        same = refl;
      }

  subscribe_command-IsQuiet :
      (w : World) (sock : ℕ) (argv : List Bytes) → IsQuiet s (subscribe_command w sock argv s)
  subscribe_command-IsQuiet w sock argv =
      elim (Option-cases (get_client_by_socket sock s.clients)) [
        | inl e ↦ unfold subscribe_command in rw (e, subscribe_command) (kept _ refl refl refl)
        | inr (c, e) ↦
            unfold subscribe_command in
            rw (e, subscribe_command)
              (concerned sock c e _ _
                (pubsub_subscribe_client-Concerns w.subs c.socket argv s.channels v.channels))
      ]

  unsubscribe_command-IsQuiet :
      (sock : ℕ) (argv : List Bytes) → IsQuiet s (unsubscribe_command sock argv s)
  unsubscribe_command-IsQuiet sock argv =
      elim (Option-cases (get_client_by_socket sock s.clients)) [
        | inl e ↦ unfold unsubscribe_command in rw (e, unsubscribe_command) (kept _ refl refl refl)
        | inr (c, e) ↦
            unfold unsubscribe_command in
            rw (e, unsubscribe_command)
              (concerned sock c e _ _
                (pubsub_unsubscribe_client-Concerns c.socket argv s.channels v.channels))
      ]
