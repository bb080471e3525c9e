-- ===== src/Frame/Verdict.antt =====
-- What `bw2_frameMustResponse` takes for a good response.
use bw2c.Base.{
  ◌≡◌, ◌↔◌, ◌∙◌, refl, sym, ap, Bool, true, false, none, some, [], ◌∷◌, ◌++◌, if◌then◌else◌, arith,
  Bytes, bytes_eq, codes, length,
}
use bw2c.Clib.{strncmp_eq, NoNul}
use bw2c.Run.{response_status}
use bw2c.Frame.{Frame, Header, get_first_header, frame_must_response}

strncmp_eq-append : (a rest : Bytes) → strncmp_eq a (a ++ rest) (length a) ≡ true
unfolding strncmp_eq
strncmp_eq-append [] rest = refl
strncmp_eq-append (c ∷ a) rest = ground (arith, strncmp_eq-append a rest)

strncmp_eq-prefix :
    (a b : Bytes) → NoNul a → strncmp_eq a b (length a) ≡ true → (rest : Bytes) × (b ≡ a ++ rest)
unfolding strncmp_eq
strncmp_eq-prefix [] b h e = (b, refl)
strncmp_eq-prefix (c ∷ a) [] (h, hs) e = absurd (ground arith)
strncmp_eq-prefix (c ∷ a) (d ∷ b) (h, hs) e =
    let (rest, r) = strncmp_eq-prefix a b hs (ground arith) in (rest, ground (arith, r))

verdict_none :
    (f : Frame) (h : Header)
    → f.cmd ≡ codes "resp"
    → get_first_header f (codes "status") ≡ some h
    → frame_must_response f
      ≡ (if strncmp_eq h.value (codes "okay") h.len then none else some response_status)
unfolding frame_must_response
verdict_none f h c s = rw (frame_must_response, ap (λ cmd. bytes_eq cmd (codes "resp")) c, s) refl

-- The test of the verdict.
passed : (b : Bool) → (if b then none else some response_status) ≡ none → b ≡ true
passed true e = refl
passed false e = cc

same_front :
    (h : Header) (rest : Bytes)
    → h.len ≡ length h.value
    → codes "okay" ≡ h.value ++ rest
    → strncmp_eq h.value (codes "okay") h.len ≡ true
same_front h rest l e =
    ap (strncmp_eq h.value (codes "okay")) l
    ∙ ap (λ b. strncmp_eq h.value b (length h.value)) e
    ∙ strncmp_eq-append h.value rest

-- A response whose first header "status" has a value without NULs, of the length that the header
-- states, passes if and only if the value is a front part of "okay": "okay" itself, but also "ok", "o"
-- and the empty value.
pub frame_must_response-none :
    (f : Frame) (h : Header)
    → f.cmd ≡ codes "resp"
    → get_first_header f (codes "status") ≡ some h
    → h.len ≡ length h.value
    → NoNul h.value
    → (frame_must_response f ≡ none) ↔ ((rest : Bytes) × (codes "okay" ≡ h.value ++ rest))
frame_must_response-none f h c s l n = (
  λ e.
      strncmp_eq-prefix h.value (codes "okay") n (
        ap (strncmp_eq h.value (codes "okay")) (sym l) ∙ passed _ (sym (verdict_none f h c s) ∙ e)),
  λ (rest, e).
      verdict_none f h c s
      ∙ ap (λ b. if b then none else some response_status) (same_front h rest l e),
)
