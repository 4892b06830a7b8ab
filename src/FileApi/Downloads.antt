-- ===== src/FileApi/Downloads.antt =====
-- What a download answers, and the slot that it holds.
use u_paste.Prelude.{
  ◌≡◌, refl, sym, ◌∙◌, inl, inr, Option, none, some, List, arith, Bool-cases, Option-cases,
  Result-cases, Bytes, ok, bind-eq-ok,
}
use u_paste.Capability.{ShareId}
use u_paste.Database.{Db}
use u_paste.Abuse.{Rate, Control, read, allow, try_download, release_download}
use u_paste.Abuse.ClientIp.{Net, client_ip, rate_key}
use u_paste.Abuse.Gates.{allow_gates}
use u_paste.ObjectStore.{Store, StoreLaws}
use u_paste.Share.{Share, File, Env}
use u_paste.Share.Create.{get}
use u_paste.Share.Files.{open_payload, open_file}
use u_paste.Http.Routes.{path_id}
use u_paste.FileApi.{
  Request, Served, serve, file_path, is_file_path, is_served, serve_file, download, after_release,
  download_slot, file_request, route,
}

module _ (net : Net) (trusted : List net.Prefix) (rate : Rate) (store : Store) (env : Env)
    (r : Request) where
  download_slot-downloads :
      (control : Control rate) (db : Db) (objects : store.State)
      → (download_slot net trusted rate store env r control db objects).2.downloads
        ≡ control.downloads
  unfolding download_slot try_download after_release release_download
  download_slot-downloads control db objects = ground arith

  -- Whatever a request asks and whatever fails, as many download slots are held after it as before
  -- it: a slot that was taken is given back, and the release does not wait.
  pub route-downloads :
      (control : Control rate) (db : Db) (objects : store.State)
      → (route net trusted rate store env r control db objects).1.downloads ≡ control.downloads
  unfolding route file_request
  route-downloads control db objects =
      let key = rate_key net (client_ip net r.remote_addr r.forwarded_for trusted) in
      let admitted = allow rate read env.clock key control in
      let gates = allow_gates rate read env.clock key control in
      elim (Bool-cases (is_file_path r.path)) [
        | inr f ↦ rw (f, route) refl
        | inl f ↦ elim (Bool-cases (is_served r.method)) [
          | inr m ↦ rw (f, m, route, file_request) refl
          | inl m ↦ elim (Bool-cases admitted.0) [
            | inr a ↦ rw (f, m, a, route, file_request) (sym gates.2)
            | inl a ↦
                rw (f, m, a, route, file_request)
                  (download_slot-downloads admitted.1 db objects ∙ sym gates.2)
          ]
        ]
      ]

  -- What is served is the object of the File of the Share that the path names, which Get answers.
  pub record Source (db : Db) (objects : store.State) (served : Served) : Type 0 where
    pub id : ShareId
    pub value : Share
    pub stored : File
    pub names : path_id file_path r.path ≡ some id
    pub live : get env db id ≡ ok value
    pub holds : value.file ≡ some stored
    pub content : store.contents objects stored.storage_key ≡ some served.content
    pub filename : served.attachment ≡ stored.filename
    pub size : served.content_length ≡ stored.size
    pub media_type : served.media_type ≡ stored.media_type

  open_payload-lem :
      (objects : store.State) (share value : Share) (file : Option File) (content : Bytes)
      → open_payload store env share file objects ≡ ok (value, content)
      → (share ≡ value)
        × (f : File) × (file ≡ some f)
        × (store.open_object f.storage_key objects ≡ some content)
  unfolding open_payload
  open_payload-lem objects share value none content h = absurd (ground (arith, h))
  open_payload-lem objects share value (some f) content h =
      (ground (arith, h), f, refl, ground (arith, h))

  open_file-lem :
      (db : Db) (objects : store.State) (id : ShareId) (value : Share) (content : Bytes)
      → open_file store env db objects id ≡ ok (value, content)
      → (get env db id ≡ ok value)
        × (f : File) × (value.file ≡ some f)
        × (store.open_object f.storage_key objects ≡ some content)
  unfolding open_file
  open_file-lem db objects id value content h =
      let (share, g, p) = bind-eq-ok (get env db id) _ h in
      let (same, f, holds, opened) = open_payload-lem objects share value share.file content p in
      rw (← same) (g, f, holds, opened)

  download-Source :
      StoreLaws store
      → (db : Db) (objects : store.State) (served : Served)
      → download net trusted rate store env r db objects ≡ serve served
      → Source db objects served
  unfolding download serve_file
  download-Source laws db objects served h = elim (Option-cases (path_id file_path r.path)) [
    | inl n ↦ absurd (ground (arith, n, h))
    | inr (id, n) ↦ elim (Result-cases (open_file store env db objects id)) [
      | inr (e, o) ↦ absurd (ground (arith, n, o, h))
      | inl ((value, content), o) ↦
          let (live, f, holds, opened) = open_file-lem db objects id value content o in
          elim (Bool-cases r.deadline) [
            | inr w ↦ absurd (ground (arith, n, o, w, h))
            | inl w ↦
                let sent : serve_file value (some f) content ≡ serve served =
                  rw (n, o, w, holds, download) at h in
                record {
                  id = id;
                  value = value;
                  stored = f;
                  names = n;
                  live = live;
                  holds = holds;
                  content =
                      laws.open_reads f.storage_key content objects opened ∙ ground (arith, sent);
                  filename = ground (arith, sent);
                  size = ground (arith, sent);
                  media_type = ground (arith, sent);
                }
          ]
    ]
  ]

  -- If the store keeps its laws, a request is only ever answered with a content if its path names
  -- a live Share with a File, and then with what the store holds under the key of the File, under
  -- its name, size and type.
  pub route-Source :
      StoreLaws store
      → (control : Control rate) (db : Db) (objects : store.State) (served : Served)
      → (route net trusted rate store env r control db objects).0.answer ≡ serve served
      → Source db objects served
  unfolding route file_request download_slot
  route-Source laws control db objects served h =
      let key = rate_key net (client_ip net r.remote_addr r.forwarded_for trusted) in
      let admitted = allow rate read env.clock key control in
      elim (Bool-cases (is_file_path r.path)) [
        | inr f ↦ absurd (ground (arith, f, h))
        | inl f ↦ elim (Bool-cases (is_served r.method)) [
          | inr m ↦ absurd (ground (arith, f, m, h))
          | inl m ↦ elim (Bool-cases admitted.0) [
            | inr a ↦ absurd (ground (arith, f, m, a, h))
            | inl a ↦ elim (Bool-cases (try_download rate admitted.1).0) [
              | inr t ↦ absurd (ground (arith, f, m, a, t, h))
              | inl t ↦
                  download-Source laws db objects served
                    (rw (f, m, a, t, route, file_request, download_slot) at h)
            ]
          ]
        ]
      ]
