-- ===== src/Spa/TraceView/Replay/Requests.antt =====
-- The request of a replay button: the id stays within its segment of the path.
use trace_graph.Base.{
  ℕ, Text, codes, ltb, if◌then◌else◌, [], ◌∷◌, ◌++◌, Bool, true, false, ◌≡◌, ◌≢◌, refl, sym,
  decimal, ◌⊎◌, inl, inr, All, All-append, ◌<◌, arith, Lacks, split_head, split_head-append,
  split_tail, split_head-Lacks, split_head-append_Lacks, split_tail-append_Lacks, split_tail-Lacks,
  Lacks-decimal, ap, ap₂, ◌∙◌,
}
use trace_graph.Spa.TraceView.Replay.{
  is_unreserved, hex_digit, percent, encode_char, encode_uri, replay_path,
}

-- A character of an encoded text: one that is kept, or the percent sign.
abbrev pub IsUriChar : ℕ → Type 0
IsUriChar c = (is_unreserved c ≡ true) ⊎ (c ≡ b'%')

hex_digit-unreserved : (d : ℕ) → d < 16 → is_unreserved (hex_digit d) ≡ true
unfolding is_unreserved codes
hex_digit-unreserved d h = ground arith

percent-IsUriChar : (b : ℕ) → All IsUriChar (percent b)
unfolding percent
percent-IsUriChar b = (
  inr refl,
  (inl (hex_digit-unreserved _ (omega arith)), (inl (hex_digit-unreserved _ (omega arith)), tt)),
)

All-if {ℓ} :
    (P : ℕ → Type ℓ) (b : Bool) (s t : Text)
    → (b ≡ true → All P s)
    → All P t
    → All P (if b then s else t)
All-if P true s t h k = h refl
All-if P false s t h k = k

All-percents : (b : ℕ) (s : Text) → All IsUriChar s → All IsUriChar (percent b ++ s)
All-percents b s h = All-append IsUriChar (percent b) s (percent-IsUriChar b) h

encode_char-IsUriChar : (c : ℕ) → All IsUriChar (encode_char c)
unfolding encode_char
encode_char-IsUriChar c =
    All-if IsUriChar (is_unreserved c) _ _ (λ e. (inl e, tt))
      (All-if IsUriChar (ltb c 0x80) _ _ (λ _. percent-IsUriChar c)
        (All-if IsUriChar (ltb c 0x800) _ _ (λ _. All-percents _ _ (percent-IsUriChar _))
          (All-if IsUriChar (ltb c 0x10000) _ _
            (λ _. All-percents _ _ (All-percents _ _ (percent-IsUriChar _)))
            (All-percents _ _ (All-percents _ _ (All-percents _ _ (percent-IsUriChar _)))))))

encode_uri-IsUriChar : (s : Text) → All IsUriChar (encode_uri s)
unfolding encode_uri
encode_uri-IsUriChar [] = tt
encode_uri-IsUriChar (c ∷ s) =
    All-append IsUriChar (encode_char c) (encode_uri s) (encode_char-IsUriChar c)
      (encode_uri-IsUriChar s)

-- A reserved character is none of an encoded text.
Lacks-IsUriChar :
    (sep : ℕ) → is_unreserved sep ≡ false → sep ≢ b'%' → (s : Text) → All IsUriChar s → Lacks sep s
Lacks-IsUriChar sep r p [] h = tt
Lacks-IsUriChar sep r p (c ∷ s) (inl u, h) =
    ((λ e. ne (sym r ∙ (ap is_unreserved (sym e) ∙ u))), Lacks-IsUriChar sep r p s h)
  where
    ne : false ≢ true
    ne = λ e. cc
Lacks-IsUriChar sep r p (c ∷ s) (inr u, h) = ((λ e. p (sym e ∙ u)), Lacks-IsUriChar sep r p s h)

slash_reserved : (is_unreserved b'/' ≡ false) × (is_unreserved b'?' ≡ false)
unfolding is_unreserved codes
slash_reserved = (refl, refl)

encode_uri-Lacks_slash : (s : Text) → Lacks b'/' (encode_uri s)
encode_uri-Lacks_slash s =
    Lacks-IsUriChar b'/' slash_reserved.0 (λ e. absurd (omega arith)) (encode_uri s)
      (encode_uri-IsUriChar s)

encode_uri-Lacks_query : (s : Text) → Lacks b'?' (encode_uri s)
encode_uri-Lacks_query s =
    Lacks-IsUriChar b'?' slash_reserved.1 (λ e. absurd (omega arith)) (encode_uri s)
      (encode_uri-IsUriChar s)

split_query :
    (e s : Text)
    → Lacks b'?' e
    → split_head b'?' (codes "/tracegraph/traces/" ++ (e ++ (codes "/replay?step=" ++ s)))
      ≡ codes "/tracegraph/traces/" ++ (e ++ codes "/replay")
unfolding codes split_head
split_query e s h =
    ap (λ x. codes "/tracegraph/traces/" ++ x)
      (split_head-append_Lacks b'?' e (codes "/replay?step=" ++ s) h)

split_path :
    (e : Text)
    → Lacks b'/' e
    → split_tail b'/' (codes "/tracegraph/traces/" ++ (e ++ codes "/replay"))
      ≡ codes "tracegraph" ∷ codes "traces" ∷ e ∷ codes "replay" ∷ []
unfolding codes split_head split_tail
split_path e h =
    ap₂ (λ x xs. codes "tracegraph" ∷ codes "traces" ∷ x ∷ xs)
      (split_head-append b'/' e (codes "replay") h)
      (split_tail-append_Lacks b'/' e (codes "/replay") h)

split_step :
    (e s : Text)
    → Lacks b'?' e
    → Lacks b'?' s
    → split_tail b'?' (codes "/tracegraph/traces/" ++ (e ++ (codes "/replay?step=" ++ s)))
      ≡ (codes "step=" ++ s) ∷ []
unfolding codes split_head split_tail
split_step e s h k =
    split_tail-append_Lacks b'?' e (codes "/replay?step=" ++ s) h
    ∙ ap₂ (λ x xs. (codes "step=" ++ x) ∷ xs) (split_head-Lacks b'?' s k)
        (split_tail-Lacks b'?' s k)

-- Whatever the id holds, slashes and question marks included, the request of a replay button is
-- for the path `/tracegraph/traces/<id>/replay` with the encoded id as one segment, and its query
-- is the step.
pub replay_path-segments :
    (id : Text) (step : ℕ)
    → (split_tail b'/' (split_head b'?' (replay_path id (decimal step)))
        ≡ codes "tracegraph" ∷ codes "traces" ∷ encode_uri id ∷ codes "replay" ∷ [])
      × (split_tail b'?' (replay_path id (decimal step)) ≡ (codes "step=" ++ decimal step) ∷ [])
unfolding replay_path
replay_path-segments id step = (
  rw (split_query (encode_uri id) (decimal step) (encode_uri-Lacks_query id))
      (split_path (encode_uri id) (encode_uri-Lacks_slash id)),
  split_step (encode_uri id) (decimal step) (encode_uri-Lacks_query id)
      (Lacks-decimal b'?' step (omega arith)),
)
