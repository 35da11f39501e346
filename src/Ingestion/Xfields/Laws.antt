-- ===== src/Ingestion/Xfields/Laws.antt =====
-- Fields written as `key|value||key|value` are read back.
use content_fabric.Base.{
  ℕ, ◌≡◌, ◌≢◌, refl, sym, ap, ◌∙◌, false, some, List, [], ◌∷◌, ◌++◌, map, ◌==◌, All, All-append,
}
use content_fabric.Text.{Text, text_eq}
use content_fabric.Text.Decimal.{strip}
use content_fabric.Text.Split.{push}
use content_fabric.Ingestion.Xfields.{
  Xfields, put, split_bars, cut_bar, put_cut, put_parts, parse_xfields,
}
use mathlib.Core.List.{append_assoc, append-nil}

-- `key|value`
abbrev pub written_field : Text × Text → Text
written_field (key, value) = key ++ (b'|' ∷ value)

abbrev pub written : Xfields → Text
written [] = []
written (f ∷ []) = written_field f
written (f ∷ g ∷ fs) = written_field f ++ (b'|' ∷ b'|' ∷ written (g ∷ fs))

-- no character is a bar
abbrev pub HasNoBar : Text → Type 0
HasNoBar = All (λ c. (c == b'|') ≡ false)

-- What the format can express: no bar inside, no white space around, and a value that is not empty.
pub record IsField (f : Text × Text) : Type 0 where
  pub key_bars : HasNoBar f.0
  pub value_bars : HasNoBar f.1
  pub value_ne_nil : f.1 ≢ []
  pub key_stripped : strip f.0 ≡ f.0
  pub value_stripped : strip f.1 ≡ f.1

abbrev pub HasDistinctKeys : Xfields → Type 0
HasDistinctKeys [] = Unit
HasDistinctKeys (f ∷ fs) = All (λ g. text_eq f.0 g.0 ≡ false) fs × HasDistinctKeys fs

split_bars-other :
    (c : ℕ) (s : Text) → (c == b'|') ≡ false → split_bars (c ∷ s) ≡ push c (split_bars s)
unfolding split_bars
split_bars-other c [] h = refl
split_bars-other c (d ∷ s) h = rw h refl

-- text before the first piece
abbrev push_text : Text → List Text → List Text
push_text [] ss = ss
push_text (c ∷ w) ss = push c (push_text w ss)

split_bars-plain : (w s : Text) → HasNoBar w → split_bars (w ++ s) ≡ push_text w (split_bars s)
split_bars-plain [] s h = refl
split_bars-plain (c ∷ w) s h =
    split_bars-other c (w ++ s) h.0 ∙ ap (push c) (split_bars-plain w s h.1)

split_bars-bar :
    (d : ℕ) (s : Text)
    → (d == b'|') ≡ false
    → split_bars (b'|' ∷ d ∷ s) ≡ push b'|' (split_bars (d ∷ s))
unfolding split_bars
split_bars-bar d s h = rw h refl

push_text-cons : (w x : Text) (xs : List Text) → push_text w (x ∷ xs) ≡ (w ++ x) ∷ xs
push_text-cons [] x xs = refl
push_text-cons (c ∷ w) x xs = ap (push c) (push_text-cons w x xs)

-- One field, with `x ∷ xs` for the pieces of what follows it.
split_bars-field :
    (k v rest : Text) (x : Text) (xs : List Text)
    → HasNoBar k
    → HasNoBar v
    → v ≢ []
    → split_bars rest ≡ x ∷ xs
    → split_bars (k ++ (b'|' ∷ (v ++ rest))) ≡ (k ++ (b'|' ∷ (v ++ x))) ∷ xs
split_bars-field k [] rest x xs hk hv ne e = absurd (ne refl)
split_bars-field k (d ∷ v) rest x xs hk hv ne e =
    split_bars-plain k (b'|' ∷ d ∷ (v ++ rest)) hk
    ∙ ap (push_text k) (
        split_bars-bar d (v ++ rest) hv.0
        ∙ ap (push b'|') (
            split_bars-plain (d ∷ v) rest hv
            ∙ ap (push_text (d ∷ v)) e
            ∙ push_text-cons (d ∷ v) x xs))
    ∙ push_text-cons k (b'|' ∷ ((d ∷ v) ++ x)) xs

split_bars-end : split_bars [] ≡ [] ∷ []
unfolding split_bars
split_bars-end = refl

split_bars-apart : (s : Text) → split_bars (b'|' ∷ b'|' ∷ s) ≡ [] ∷ split_bars s
unfolding split_bars
split_bars-apart s = refl

split_bars-written :
    (f : Text × Text) (fs : Xfields)
    → All IsField (f ∷ fs)
    → split_bars (written (f ∷ fs)) ≡ map written_field (f ∷ fs)
split_bars-written (k, v) [] h =
    ap (λ r. split_bars (k ++ (b'|' ∷ r))) (sym (append-nil v))
    ∙ split_bars-field k v [] [] [] h.0.key_bars h.0.value_bars h.0.value_ne_nil split_bars-end
    ∙ ap (λ r. (k ++ (b'|' ∷ r)) ∷ []) (append-nil v)
split_bars-written (k, v) (g ∷ fs) h =
    ap split_bars (append_assoc k (b'|' ∷ v) (b'|' ∷ b'|' ∷ written (g ∷ fs)))
    ∙ split_bars-field k v _ [] (map written_field (g ∷ fs)) h.0.key_bars h.0.value_bars
        h.0.value_ne_nil
        (split_bars-apart (written (g ∷ fs)) ∙ ap (λ r. [] ∷ r) (split_bars-written g fs h.1))
    ∙ ap (λ r. (k ++ (b'|' ∷ r)) ∷ map written_field (g ∷ fs)) (append-nil v)

cut_bar-field : (k v : Text) → HasNoBar k → cut_bar (k ++ (b'|' ∷ v)) ≡ some (k, v)
unfolding cut_bar
cut_bar-field [] v h = refl
cut_bar-field (c ∷ k) v h = rw (h.0, cut_bar-field k v h.1) refl

put-fresh :
    (k v : Text) (d : Xfields) → All (λ g. text_eq g.0 k ≡ false) d → put k v d ≡ d ++ (k, v) ∷ []
unfolding put
put-fresh k v [] h = refl
put-fresh k v ((j, w) ∷ d) h = rw h.0 (ap (λ r. (j, w) ∷ r) (put-fresh k v d h.1))

-- every key of `d` differs from every key of `fs`
abbrev IsFresh : Xfields → Xfields → Type 0
IsFresh fs d = All (λ f. All (λ g. text_eq g.0 f.0 ≡ false) d) fs

IsFresh-snoc :
    (f : Text × Text) (fs d : Xfields)
    → All (λ g. text_eq f.0 g.0 ≡ false) fs
    → IsFresh fs d
    → IsFresh fs (d ++ f ∷ [])
IsFresh-snoc f [] d h k = tt
IsFresh-snoc f (g ∷ fs) d h k = (
  All-append (λ e. text_eq e.0 g.0 ≡ false) d (f ∷ []) k.0 (h.0, tt),
  IsFresh-snoc f fs d h.1 k.1,
)

put_parts-cons :
    (part : Text) (parts : List Text) (d : Xfields)
    → put_parts (part ∷ parts) d ≡ put_parts parts (put_cut (cut_bar part) d)
unfolding put_parts
put_parts-cons part parts d = refl

put_parts-nil : (d : Xfields) → put_parts [] d ≡ d
unfolding put_parts
put_parts-nil d = refl

put_cut-field :
    (k v : Text) (d : Xfields)
    → IsField (k, v)
    → All (λ g. text_eq g.0 k ≡ false) d
    → put_cut (cut_bar (written_field (k, v))) d ≡ d ++ (k, v) ∷ []
put_cut-field k v d h fresh =
    ap (λ r. put_cut r d) (cut_bar-field k v h.key_bars)
    ∙ rw (h.key_stripped, h.value_stripped) (put-fresh k v d fresh)

put_parts-written :
    (fs d : Xfields)
    → All IsField fs
    → HasDistinctKeys fs
    → IsFresh fs d
    → put_parts (map written_field fs) d ≡ d ++ fs
put_parts-written [] d h k fresh = put_parts-nil d ∙ sym (append-nil d)
put_parts-written ((key, value) ∷ fs) d h k fresh =
    put_parts-cons (written_field (key, value)) (map written_field fs) d
    ∙ ap (put_parts (map written_field fs)) (put_cut-field key value d h.0 fresh.0)
    ∙ put_parts-written fs (d ++ (key, value) ∷ []) h.1 k.1
        (IsFresh-snoc (key, value) fs d k.0 fresh.1)
    ∙ append_assoc d ((key, value) ∷ []) fs

IsFresh-nil : (fs : Xfields) → IsFresh fs []
IsFresh-nil [] = tt
IsFresh-nil (f ∷ fs) = (tt, IsFresh-nil fs)

written-some : (k v : Text) (fs : Xfields) → (c : ℕ) × (s : Text) × (written ((k, v) ∷ fs) ≡ c ∷ s)
written-some [] v [] = (b'|', v, refl)
written-some (c ∷ k) v [] = (c, k ++ (b'|' ∷ v), refl)
written-some [] v (g ∷ fs) = (b'|', v ++ (b'|' ∷ b'|' ∷ written (g ∷ fs)), refl)
written-some (c ∷ k) v (g ∷ fs) = (c, (k ++ (b'|' ∷ v)) ++ (b'|' ∷ b'|' ∷ written (g ∷ fs)), refl)

-- Fields with distinct keys that the format can express are read back as they were written.
pub parse_xfields-written :
    (fs : Xfields) → All IsField fs → HasDistinctKeys fs → parse_xfields (some (written fs)) ≡ fs
unfolding parse_xfields
parse_xfields-written [] h k = refl
parse_xfields-written ((key, value) ∷ fs) h k =
    let (c, s, e) = written-some key value fs in
    rw e (
      ap (λ w. put_parts (split_bars w) []) (sym e)
      ∙ rw (split_bars-written (key, value) fs h)
          (put_parts-written ((key, value) ∷ fs) [] h k (IsFresh-nil ((key, value) ∷ fs))))
