-- ===== src/Gate/Writer/Recording.antt =====
-- What the recorder reports of a response.
use anteroom.Common.{
  ℕ, ◌+◌, ◌≡◌, refl, sym, ◌∙◌, inl, inr, true, List, [], ◌∷◌, length, arith, if◌then◌else◌,
  Bool-cases, subst,
}
use anteroom.Gate.Writer.{
  Sent, head, body, flush, is_informational, Recorder, new_recorder, record_header, record_write,
  record_all,
}

-- The status and the size that a recorder is to report.
unfoldable pub final_status : List Sent → ℕ
final_status [] = 200
final_status (head s h ∷ ss) = let rest = final_status ss in if is_informational s then rest else s
final_status (body b h ∷ ss) = 200
final_status (flush h ∷ ss) = final_status ss

unfoldable pub body_size : List Sent → ℕ
body_size [] = 0
body_size (head s h ∷ ss) = body_size ss
body_size (body b h ∷ ss) = length b + body_size ss
body_size (flush h ∷ ss) = body_size ss

wrote_once :
    (rec : Recorder) (ss : List Sent)
    → rec.wrote ≡ true
    → ((record_all rec ss).status ≡ rec.status) × ((record_all rec ss).n ≡ rec.n + body_size ss)
unfolding record_all body_size record_header record_write
wrote_once rec [] w = (refl, omega arith)
wrote_once rec (head s h ∷ ss) w =
    let same : record_header s rec ≡ rec = ground (arith, w) in
    subst
      (λ x. ((record_all x ss).status ≡ rec.status) × ((record_all x ss).n ≡ rec.n + body_size ss))
      (sym same) (wrote_once rec ss w)
wrote_once rec (body b h ∷ ss) w =
    let (e, f) = wrote_once (record_write (length b) rec) ss refl in (e, ground (arith, f))
wrote_once rec (flush h ∷ ss) w = wrote_once rec ss w

-- The recorder of a response reports the status of the first head that is not informational, 200 when
-- a body comes without one, and the number of bytes of all bodies.
pub record_all_lem :
    (ss : List Sent)
    → ((record_all new_recorder ss).status ≡ final_status ss)
      × ((record_all new_recorder ss).n ≡ body_size ss)
unfolding record_all final_status body_size record_header record_write
record_all_lem [] = (refl, refl)
record_all_lem (head s h ∷ ss) = elim (Bool-cases (is_informational s)) [
  | inl i ↦
      let same : record_header s new_recorder ≡ new_recorder = ground (arith, i) in
      let (e, f) = record_all_lem ss in (ground (arith, i, same, e), ground (arith, i, same, f))
  | inr i ↦
      let w : Recorder = record { status = s; n = 0; wrote = true } in
      let same : record_header s new_recorder ≡ w = ground (arith, i) in
      let (e, f) = wrote_once w ss refl in (ground (arith, i, same, e), ground (arith, same, f))
]
record_all_lem (body b h ∷ ss) =
    let (e, f) = wrote_once (record_write (length b) new_recorder) ss refl in (e, f ∙ omega arith)
record_all_lem (flush h ∷ ss) = record_all_lem ss
