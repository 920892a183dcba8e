-- ===== src/Transfer/Steps.antt =====
-- A call on the connection or on the files, inside a sequence.
use so2_final.Base.{◌≡◌, M, Error, ok, err}
use so2_final.Network.Channel.{Channel}
use so2_final.Files.System.{FileSystem}
use so2_final.Transfer.{Host, on_conn, on_files, attempt}

module _ (C : Channel) (F : FileSystem) where
  pub on_conn-ok {ℓ} :
      {A : Type ℓ} (call : M C.Conn A) (h : Host C F) {a : A} {c : C.Conn}
      → call h.conn ≡ ok a c
      → on_conn C F call h ≡ ok a (record h { conn = c })
  on_conn-ok call h e = rw (e, on_conn)

  pub on_conn-err {ℓ} :
      {A : Type ℓ} (call : M C.Conn A) (h : Host C F) {e : Error} {c : C.Conn}
      → call h.conn ≡ err e c
      → on_conn C F call h ≡ err e (record h { conn = c })
  on_conn-err call h e = rw (e, on_conn)

  pub on_files-ok {ℓ} :
      {A : Type ℓ} (call : M F.State A) (h : Host C F) {a : A} {s : F.State}
      → call h.files ≡ ok a s
      → on_files C F call h ≡ ok a (record h { files = s })
  on_files-ok call h e = rw (e, on_files)

  pub on_files-err {ℓ} :
      {A : Type ℓ} (call : M F.State A) (h : Host C F) {e : Error} {s : F.State}
      → call h.files ≡ err e s
      → on_files C F call h ≡ err e (record h { files = s })
  on_files-err call h e = rw (e, on_files)

pub attempt-ok {ℓ} :
    {S : Type ℓ} (call : M S (Unit {0})) (s : S) {s' : S}
    → call s ≡ ok tt s'
    → attempt call s ≡ ok tt s'
attempt-ok call s e = rw (e, attempt)

pub attempt-err {ℓ} :
    {S : Type ℓ} (call : M S (Unit {0})) (s : S) {e : Error} {s' : S}
    → call s ≡ err e s'
    → attempt call s ≡ ok tt s'
attempt-err call s e = rw (e, attempt)
