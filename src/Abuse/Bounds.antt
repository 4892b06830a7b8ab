-- ===== src/Abuse/Bounds.antt =====
-- How many clients Allow keeps, and what it leaves of the others.
use u_paste.Prelude.{
  ℕ, ◌-◌, ◌≤◌, ◌<◌, ◌≡◌, ◌≢◌, refl, inl, inr, some, [], ◌∷◌, arith, Option-cases, Bool-cases, Bytes,
  length, bytes_eq_iff,
}
use u_paste.Database.Tables.{Table, find, modify, find-modify}
use u_paste.Abuse.{
  Kind, Rate, Client, Control, client_idle_ttl, fresh, sweep, ask, seen, admit, admit_new,
  make_room, allow_swept, swept, allow, new_client, with_clients,
}

module _ (rate : Rate) where
  pub IsBounded : Control rate → Type 0
  IsBounded c = length c.clients ≤ c.max

  length-modify :
      (key : Bytes) (f : Client rate → Client rate) (t : Table (Client rate))
      → length (modify key f t) ≡ length t
  unfolding modify
  length-modify key f [] = refl
  length-modify key f ((j, v) ∷ t) = ground (arith, length-modify key f t)

  length-fresh : (now : ℕ) (t : Table (Client rate)) → length (fresh rate now t) ≤ length t
  unfolding fresh
  length-fresh now [] = ground arith
  length-fresh now ((j, v) ∷ t) = ground (arith, length-fresh now t)

  admit-clients :
      (kind : Kind) (now : ℕ) (key : Bytes) (value : Client rate) (c : Control rate)
      → ((admit rate kind now key value c).1.max ≡ c.max)
        × (length (admit rate kind now key value c).1.clients ≡ length c.clients)
  unfolding admit
  admit-clients kind now key value c = elim (Bool-cases (rate.allow_n c.global now).0) [
    | inl q ↦
        ground
          (arith, q, length-modify key (λ v. (ask rate kind now (seen rate now value)).1) c.clients)
    | inr q ↦ ground (arith, q, length-modify key (seen rate now) c.clients)
  ]

  find-fresh :
      (now : ℕ) (j : Bytes) (v : Client rate) (t : Table (Client rate))
      → find j t ≡ some v
      → now - v.last < client_idle_ttl
      → find j (fresh rate now t) ≡ some v
  unfolding fresh find
  find-fresh now j v [] h n = ground arith
  find-fresh now j v ((i, w) ∷ t) h n = ground (arith, find-fresh now j v t)

  swept-IsBounded : (now : ℕ) (c : Control rate) → IsBounded c → IsBounded (swept rate now c)
  unfolding swept sweep IsBounded
  swept-IsBounded now c h = ground (arith, length-fresh now c.clients)

  allow_swept-IsBounded :
      (kind : Kind) (now : ℕ) (key : Bytes) (c : Control rate)
      → IsBounded c
      → IsBounded (allow_swept rate kind now key c).1
  unfolding allow_swept admit_new make_room sweep IsBounded
  allow_swept-IsBounded kind now key c h = elim (Option-cases (find key c.clients)) [
    | inr (value, q) ↦ ground (arith, q, admit-clients kind now key value c)
    | inl q ↦
        let room = make_room rate now c in
        let kept = length-fresh now c.clients in
        let added =
          admit-clients kind now key (new_client rate now)
            (with_clients rate room ((key, new_client rate now) ∷ room.clients) room.last_sweep) in
        ground (arith, q, kept, added)
  ]

  -- If a control holds at most `max` clients, so it does after Allow, whatever the limiters
  -- answer.
  pub allow-IsBounded :
      (kind : Kind) (now : ℕ) (key : Bytes) (c : Control rate)
      → length c.clients ≤ c.max
      → length (allow rate kind now key c).1.clients ≤ (allow rate kind now key c).1.max
  unfolding allow IsBounded
  allow-IsBounded kind now key c h =
      ground
        (arith, allow_swept-IsBounded kind now key (swept rate now c) (swept-IsBounded now c h))

  admit_frame :
      (kind : Kind) (now : ℕ) (key j : Bytes) (value : Client rate) (c : Control rate)
      → key ≢ j
      → find j (admit rate kind now key value c).1.clients ≡ find j c.clients
  unfolding admit
  admit_frame kind now key j value c n = ground (
    arith,
    bytes_eq_iff key j,
    find-modify key j (λ v. (ask rate kind now (seen rate now value)).1) c.clients,
    find-modify key j (seen rate now) c.clients,
  )

  allow_swept_frame :
      (kind : Kind) (now : ℕ) (key j : Bytes) (v : Client rate) (c : Control rate)
      → key ≢ j
      → find j c.clients ≡ some v
      → now - v.last < client_idle_ttl
      → find j (allow_swept rate kind now key c).1.clients ≡ some v
  unfolding allow_swept admit_new make_room sweep find
  allow_swept_frame kind now key j v c n h live = elim (Option-cases (find key c.clients)) [
    | inr (value, q) ↦ ground (arith, q, h, admit_frame kind now key j value c n)
    | inl q ↦
        let room = make_room rate now c in
        let kept = find-fresh now j v c.clients h live in
        let added =
          admit_frame kind now key j (new_client rate now)
            (with_clients rate room ((key, new_client rate now) ∷ room.clients) room.last_sweep)
            n in
        ground (arith, q, h, n, kept, added, bytes_eq_iff key j)
  ]

  -- Allow leaves the entry of every other client that was seen within the idle time as it is.
  pub allow_frame :
      (kind : Kind) (now : ℕ) (key j : Bytes) (v : Client rate) (c : Control rate)
      → key ≢ j
      → find j c.clients ≡ some v
      → now - v.last < client_idle_ttl
      → find j (allow rate kind now key c).1.clients ≡ some v
  unfolding allow swept sweep
  allow_frame kind now key j v c n h live = ground (
    arith,
    h,
    allow_swept_frame kind now key j v (swept rate now c) n
        (unfold swept sweep in ground (arith, h, find-fresh now j v c.clients h live)) live,
  )
