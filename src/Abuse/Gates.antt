-- ===== src/Abuse/Gates.antt =====
-- The upload and download gates under every order of calls.
use u_paste.Prelude.{
  ℕ, suc, ◌≤◌, ◌<◌, ◌≡◌, ◌≢◌, inl, inr, true, false, none, some, arith, ltb, Option-cases, Bytes,
}
use u_paste.Database.Tables.{find}
use u_paste.Abuse.{
  Kind, Rate, Control, new, allow, allow_swept, swept, sweep, make_room, admit, admit_new,
  upload_limit, download_limit, try_upload, release_upload, try_download, release_download,
}

module _ (rate : Rate) where
  -- A control that is in use from New on, with the numbers of upload and download slots held: a slot
  -- is held from a Try that answers true to its Release.
  pub data Held : ℕ → ℕ → Control rate → Type 0 where
    start : (max : ℕ) → Held 0 0 (new rate max false)
    request :
        {u d : ℕ} {c : Control rate} (kind : Kind) (now : ℕ) (key : Bytes)
        → Held u d c
        → Held u d (allow rate kind now key c).1
    upload :
        {u d : ℕ} {c c' : Control rate}
        → Held u d c
        → try_upload rate c ≡ (true, c')
        → Held (suc u) d c'
    upload_refused :
        {u d : ℕ} {c c' : Control rate} → Held u d c → try_upload rate c ≡ (false, c') → Held u d c'
    uploaded :
        {u d : ℕ} {c c' : Control rate}
        → Held (suc u) d c
        → release_upload rate c ≡ some c'
        → Held u d c'
    download :
        {u d : ℕ} {c c' : Control rate}
        → Held u d c
        → try_download rate c ≡ (true, c')
        → Held u (suc d) c'
    download_refused :
        {u d : ℕ} {c c' : Control rate}
        → Held u d c
        → try_download rate c ≡ (false, c')
        → Held u d c'
    downloaded :
        {u d : ℕ} {c c' : Control rate}
        → Held u (suc d) c
        → release_download rate c ≡ some c'
        → Held u d c'

  abbrev pub Counts : ℕ → ℕ → Control rate → Type 0
  Counts u d c =
      (c.disabled ≡ false)
      × (c.uploads ≡ u)
      × (c.downloads ≡ d)
      × (u ≤ upload_limit)
      × (d ≤ download_limit)

  abbrev pub SameGates : Control rate → Control rate → Type 0
  SameGates c c' =
      (c.disabled ≡ c'.disabled) × (c.uploads ≡ c'.uploads) × (c.downloads ≡ c'.downloads)

  allow_swept_gates :
      (kind : Kind) (now : ℕ) (key : Bytes) (c : Control rate)
      → SameGates c (allow_swept rate kind now key c).1
  unfolding allow_swept admit_new admit make_room sweep
  allow_swept_gates kind now key c = elim (Option-cases (find key c.clients)) [
    | inr (value, q) ↦ ground (arith, q)
    | inl q ↦ ground (arith, q)
  ]

  pub allow_gates :
      (kind : Kind) (now : ℕ) (key : Bytes) (c : Control rate)
      → SameGates c (allow rate kind now key c).1
  unfolding allow swept sweep
  allow_gates kind now key c = ground (arith, allow_swept_gates kind now key (swept rate now c))

  pub Held-Counts : {u d : ℕ} {c : Control rate} → Held u d c → Counts u d c
  unfolding new try_upload release_upload try_download release_download
  Held-Counts (start max) = ground arith
  Held-Counts (request {c = c} kind now key h) =
      ground (arith, Held-Counts h, allow_gates kind now key c)
  Held-Counts (upload h e) = ground (arith, Held-Counts h, e)
  Held-Counts (upload_refused h e) = ground (arith, Held-Counts h, e)
  Held-Counts (uploaded h e) = ground (arith, Held-Counts h, e)
  Held-Counts (download h e) = ground (arith, Held-Counts h, e)
  Held-Counts (download_refused h e) = ground (arith, Held-Counts h, e)
  Held-Counts (downloaded h e) = ground (arith, Held-Counts h, e)

  -- After any sequence of Allow, Try and Release calls on an enabled control, where each Release
  -- is of a held slot: at most four upload and thirty-two download slots are held, TryUpload and
  -- TryDownload answer true exactly if fewer are, and the release of a held slot does not wait.
  pub gates_lem :
      {u d : ℕ} {c : Control rate}
      → Held u d c
      → (u ≤ upload_limit)
        × (d ≤ download_limit)
        × ((try_upload rate c).0 ≡ ltb u upload_limit)
        × ((try_download rate c).0 ≡ ltb d download_limit)
        × (0 < u → release_upload rate c ≢ none)
        × (0 < d → release_download rate c ≢ none)
  unfolding try_upload release_upload try_download release_download
  gates_lem h =
      let counts = Held-Counts h in
      (
        ground (arith, counts),
        ground (arith, counts),
        ground (arith, counts),
        ground (arith, counts),
        ground (arith, counts),
        ground (arith, counts),
      )
