-- ===== src/Abuse.antt =====
-- The admission control of internal/abuse/control.go: New, Allow, sweep and the upload and download
-- gates. golang.org/x/time/rate is a parameter, `Rate`. Times are nanoseconds since the zero time.
pub mod ClientIp
pub mod Bounds
pub mod Gates
use u_paste.Prelude.{
  ℕ, zero, suc, ◌+◌, ◌-◌, ◌*◌, ◌/◌, Bool, true, false, ◌&&◌, not, Option, none, some, List, [], ◌∷◌,
  ltb, leb, if◌then◌else◌, Bytes, length,
}
use u_paste.Database.Tables.{Table, find, modify}

pub data Kind : Type 0 where
  create mutation read : Kind

-- rate.NewLimiter(rate.Every(interval), burst) and AllowN(now, 1)
pub record Rate : Type 1 where
  pub Limiter : Type 0
  pub new_limiter : ℕ → ℕ → Limiter
  pub allow_n : Limiter → ℕ → Bool × Limiter

abbrev pub minute : ℕ
minute = 60000000000

abbrev pub client_idle_ttl : ℕ
client_idle_ttl = 10 * minute

abbrev pub max_clients : ℕ
max_clients = 16384

abbrev pub upload_limit : ℕ
upload_limit = 4

abbrev pub download_limit : ℕ
download_limit = 32

abbrev pub sweep_interval : ℕ
sweep_interval = minute

module _ (rate : Rate) where
  -- `client`: `last` and its three limiters, by kind.
  pub record Client : Type 0 where
    pub last : ℕ
    pub create_limiter : rate.Limiter
    pub mutation_limiter : rate.Limiter
    pub read_limiter : rate.Limiter

  -- The channels `uploads` and `downloads` are their numbers of elements.
  pub record Control : Type 0 where
    pub max : ℕ
    pub clients : Table Client
    pub global : rate.Limiter
    pub uploads : ℕ
    pub downloads : ℕ
    pub disabled : Bool
    pub last_sweep : ℕ

  unfoldable pub new : ℕ → Bool → Control
  new max disabled = record {
    max = if leb max 0 then max_clients else max;
    clients = [];
    global = rate.new_limiter (minute / 1000) 200;
    uploads = 0;
    downloads = 0;
    disabled = disabled;
    last_sweep = 0;
  }

  abbrev pub with_clients : Control → Table Client → ℕ → Control
  with_clients c clients last_sweep = record {
    max = c.max;
    clients = clients;
    global = c.global;
    uploads = c.uploads;
    downloads = c.downloads;
    disabled = c.disabled;
    last_sweep = last_sweep;
  }

  abbrev pub with_gates : Control → ℕ → ℕ → Control
  with_gates c uploads downloads = record {
    max = c.max;
    clients = c.clients;
    global = c.global;
    uploads = uploads;
    downloads = downloads;
    disabled = c.disabled;
    last_sweep = c.last_sweep;
  }

  unfoldable pub fresh : ℕ → Table Client → Table Client
  fresh now [] = []
  fresh now ((key, value) ∷ clients) =
      let rest = fresh now clients in
      if leb client_idle_ttl (now - value.last) then rest else (key, value) ∷ rest

  unfoldable pub sweep : ℕ → Control → Control
  unfolding fresh
  sweep now c = with_clients c (fresh now c.clients) now

  abbrev pub new_client : ℕ → Client
  new_client now = record {
    last = now;
    create_limiter = rate.new_limiter (minute / 10) 5;
    mutation_limiter = rate.new_limiter (minute / 30) 10;
    read_limiter = rate.new_limiter (minute / 120) 60;
  }

  -- `value.limiters[kind].AllowN(now, 1)`
  unfoldable pub ask : Kind → ℕ → Client → Bool × Client
  ask create now v =
      let (allowed, limiter) = rate.allow_n v.create_limiter now in
      (
        allowed,
        record {
          last = v.last;
          create_limiter = limiter;
          mutation_limiter = v.mutation_limiter;
          read_limiter = v.read_limiter;
        },
      )
  ask mutation now v =
      let (allowed, limiter) = rate.allow_n v.mutation_limiter now in
      (
        allowed,
        record {
          last = v.last;
          create_limiter = v.create_limiter;
          mutation_limiter = limiter;
          read_limiter = v.read_limiter;
        },
      )
  ask read now v =
      let (allowed, limiter) = rate.allow_n v.read_limiter now in
      (
        allowed,
        record {
          last = v.last;
          create_limiter = v.create_limiter;
          mutation_limiter = v.mutation_limiter;
          read_limiter = limiter;
        },
      )

  abbrev pub seen : ℕ → Client → Client
  seen now v = record {
    last = now;
    create_limiter = v.create_limiter;
    mutation_limiter = v.mutation_limiter;
    read_limiter = v.read_limiter;
  }

  abbrev pub with_global : Control → rate.Limiter → Table Client → Control
  with_global c global clients = record {
    max = c.max;
    clients = clients;
    global = global;
    uploads = c.uploads;
    downloads = c.downloads;
    disabled = c.disabled;
    last_sweep = c.last_sweep;
  }

  -- `control.global.AllowN(now, 1) && value.limiters[kind].AllowN(now, 1)`: the second is asked only
  -- if the first allows.
  unfoldable pub admit : Kind → ℕ → Bytes → Client → Control → Bool × Control
  unfolding ask modify
  admit kind now key value c =
      let (allowed, global) = rate.allow_n c.global now in
      let (answer, asked) = ask kind now (seen now value) in
      if allowed
      then (answer, with_global c global (modify key (λ v. asked) c.clients))
      else (false, with_global c global (modify key (seen now) c.clients))

  -- The entry of a client seen for the first time, when there is room.
  unfoldable pub admit_new : Kind → ℕ → Bytes → Control → Bool × Control
  unfolding admit
  admit_new kind now key c =
      admit kind now key (new_client now)
        (with_clients c ((key, new_client now) ∷ c.clients) c.last_sweep)

  unfoldable pub make_room : ℕ → Control → Control
  unfolding sweep
  make_room now c = if leb c.max (length c.clients) then sweep now c else c

  unfoldable pub allow_swept : Kind → ℕ → Bytes → Control → Bool × Control
  unfolding find admit admit_new make_room
  allow_swept kind now key c = elim (find key c.clients) [
    | some value ↦ admit kind now key value c
    | none ↦
        if leb (make_room now c).max (length (make_room now c).clients)
        then (false, make_room now c)
        else admit_new kind now key (make_room now c)
  ]

  unfoldable pub swept : ℕ → Control → Control
  unfolding sweep
  swept now c = if leb sweep_interval (now - c.last_sweep) then sweep now c else c

  -- Allow, for the rate key of the request's client.
  unfoldable pub allow : Kind → ℕ → Bytes → Control → Bool × Control
  unfolding swept allow_swept
  allow kind now key c = if c.disabled then (true, c) else allow_swept kind now key (swept now c)

  unfoldable pub try_upload : Control → Bool × Control
  try_upload c =
      if c.disabled
      then (true, c)
      else if ltb c.uploads upload_limit
      then (true, with_gates c (suc c.uploads) c.downloads)
      else (false, c)

  -- A receive from an empty channel waits: the caller holds a slot.
  unfoldable pub release_upload : Control → Option Control
  release_upload c =
      if c.disabled
      then some c
      else if ltb 0 c.uploads
      then some (with_gates c (c.uploads - 1) c.downloads)
      else none

  unfoldable pub try_download : Control → Bool × Control
  try_download c =
      if c.disabled
      then (true, c)
      else if ltb c.downloads download_limit
      then (true, with_gates c c.uploads (suc c.downloads))
      else (false, c)

  unfoldable pub release_download : Control → Option Control
  release_download c =
      if c.disabled
      then some c
      else if ltb 0 c.downloads
      then some (with_gates c c.uploads (c.downloads - 1))
      else none
