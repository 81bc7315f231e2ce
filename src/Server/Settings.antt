-- ===== src/Server/Settings.antt =====
-- The seconds that the constructors of a session (src/session/session.cpp), its reader and its writer
-- (src/network) read from the configuration that the accept handler of src/server/server.cpp passes on.
use scalable_tcp_server.Base.{
  ℕ, ◌+◌, ◌^◌, ◌≡◌, ◌⊎◌, inl, inr, refl, Bool, true, false, ltb, if◌then◌else◌, List, [], Outcome,
  done, throws, system_error, ◌>>=◌, codes,
}
use scalable_tcp_server.Word.{u32}
use scalable_tcp_server.Config.{Json, Kind, is_integer, find_key, get_int}
use scalable_tcp_server.Config.Getters.{IsJson, getters_lem}
use scalable_tcp_server.Config.Values.{kind_cases}
use scalable_tcp_server.Connection.{Session, Expiry}
use scalable_tcp_server.Connection.Lifecycle.{construct}
use scalable_tcp_server.Connection.Reader.{new_reader}
use scalable_tcp_server.Connection.Writer.{new_writer}
use scalable_tcp_server.Connection.Events.{read_packet, start}
use scalable_tcp_server.Server.{open_session}

-- `std::chrono::seconds` of an `int`, given by its 32 bits: a timer that is set to a time in the past
-- has expired, as one that is set to the time that it is.
unfoldable pub seconds : ℕ → ℕ
seconds n = if ltb n (2 ^ 31) then n else 0

abbrev pub idle_key : List ℕ
idle_key = codes "timeouts.idle_timeout_seconds"

abbrev pub read_key : List ℕ
read_key = codes "timeouts.read_timeout_seconds"

abbrev pub write_key : List ℕ
write_key = codes "timeouts.write_timeout_seconds"

module _ (j : Json) (root : j.Object) where
  -- The constructor of `Session`; its reader and writer are made by `start`, with 10 seconds each
  -- before they read their own.
  unfoldable pub configured_session : (owned : Bool) → Outcome Session
  configured_session owned = do
    seconds_idle ← get_int j root idle_key 300
    construct owned (seconds seconds_idle) 10 10

  unfoldable pub configured_reader : (owned : Bool) → Session → Outcome Session
  configured_reader owned s = do
    read_seconds ← get_int j root read_key 10
    new_reader owned (record s { read_seconds = seconds read_seconds })

  unfoldable pub configured_writer : (owned : Bool) → Session → Outcome Session
  configured_writer owned s = do
    seconds_write ← get_int j root write_key 10
    new_writer owned (record s { seconds_write = seconds seconds_write })

  -- `Session::start`
  unfoldable pub configured_start : (owned : Bool) → ℕ → Session → Outcome Session
  configured_start owned now s = do
    with_reader ← configured_reader owned s
    with_writer ← configured_writer owned with_reader
    done (read_packet now with_writer)

  -- `make_shared<Session>` and `session->start()` in the accept handler.
  unfoldable pub configured_open : (owned : Bool) → ℕ → Outcome Session
  configured_open owned now = do
    session ← configured_session owned
    configured_start owned now session

  -- An unsigned integer stands under a key.
  abbrev pub IsUnsigned : List ℕ → Type 0
  IsUnsigned key =
      (value : j.Value) × (find_key j root key ≡ done value) × (j.kind value ≡ Kind.uint64)

  -- The `int` that a key gives: the low 32 bits of a signed integer, or the default.
  abbrev pub IsSetting : List ℕ → (default_value n : ℕ) → Type 0
  IsSetting key default_value n =
      (value : j.Value) × (find_key j root key ≡ done value)
      × (((is_integer (j.kind value) ≡ false) × (n ≡ default_value))
          ⊎ ((j.kind value ≡ Kind.int64) × ((i : ℕ) × (j.as_int64 value ≡ done i) × (n ≡ u32 i))))

  module _ (laws : IsJson j) where
    -- `get_int` throws, or gives the setting.
    pub setting :
        (key : List ℕ) (default_value : ℕ)
        → (IsUnsigned key × (get_int j root key default_value ≡ throws system_error))
          ⊎ ((n : ℕ) × IsSetting key default_value n × (get_int j root key default_value ≡ done n))
    setting key default_value =
        let (value, e, _, _, _, other, signed, unsigned, _, _) =
          getters_lem j laws root key [] default_value false in
        elim (kind_cases (j.kind value)) [
          | inl is ↦ inl ((value, e, is), unsigned is)
          | inr (inl is) ↦ inr (default_value, (value, e, inl (is, refl)), other is)
          | inr (inr is) ↦
              let (i, ei, eq) = signed is in inr (u32 i, (value, e, inr (is, (i, ei, refl))), eq)
        ]

    -- With Boost.JSON as documented and objects that a `shared_ptr` owns in their constructors, opening
    -- a session throws if an unsigned integer stands under the key of one of the three timeouts; else it
    -- makes the session whose seconds are the low 32 bits of the signed integers there, or 300 for the
    -- idle timer and 10 for reading and for writing, none if the `int` is negative, and the idle timer
    -- and the read timer expire after so many.
    pub configured_open-eq :
        (now : ℕ)
        → ((IsUnsigned idle_key ⊎ (IsUnsigned read_key ⊎ IsUnsigned write_key))
            × (configured_open true now ≡ throws system_error))
          ⊎ ((idle : ℕ) × (read : ℕ) × (write : ℕ) × IsSetting idle_key 300 idle
              × IsSetting read_key 10 read
              × IsSetting write_key 10 write
              × ((s : Session) × (configured_open true now ≡ done s)
                  × (open_session true now
                        (record { idle = seconds idle; read = seconds read; write = seconds write })
                      ≡ done s)
                  × (s.idle_timer ≡ Expiry.at (now + seconds idle))
                  × (s.read_timer ≡ Expiry.at (now + seconds read))
                  × (s.seconds_write ≡ seconds write)))
    unfolding configured_open configured_session configured_start configured_reader
        configured_writer open_session construct start
    configured_open-eq now = elim (setting idle_key 300) [
      | inl (is, e) ↦ inl (inl is, rw e refl)
      | inr (idle, is_idle, e) ↦ elim (setting read_key 10) [
        | inl (is, e') ↦ inl (inr (inl is), rw (e, e') refl)
        | inr (read, is_read, e') ↦ elim (setting write_key 10) [
          | inl (is, e'') ↦ inl (inr (inr is), rw (e, e', e'') refl)
          | inr (write, is_write, e'') ↦ inr (
            idle,
            read,
            write,
            is_idle,
            is_read,
            is_write,
            (_, rw (e, e', e'') refl, refl, refl, refl, refl),
          )
        ]
      ]
    ]
