-- ===== src/Stream/Faults.antt =====
-- What the program's test of the tools at the end of a message, in `finishOpenAIMessageChecked`,
-- finds: it is described here without that test.
use claude_gateway.Prelude.{
  ◌≡◌, ◌⊎◌, inl, inr, refl, String, Bool, true, false, ◌||◌, none, some, List, [], ◌∷◌, All, length,
  leb, eq_iff, Bool-cases, arith,
}
use claude_gateway.Json.{Members, Decoded, malformed, nil, decoded}
use claude_gateway.Stream.{is_empty}
use claude_gateway.Stream.Blocks.{Tool, Tools}
use claude_gateway.Stream.Chunks.{bad_arguments, incomplete, fault}

-- The arguments are empty or the JSON of an object.
abbrev pub HasArguments : (String → Decoded) → (List String → String) → Tool → Type 0
HasArguments decode trimmed b =
    (trimmed b.argument_fragments ≡ "")
    ⊎ ((fs : Members) × (decode (trimmed b.argument_fragments) ≡ decoded fs))

-- The tool's block was started, or nothing came of the tool.
abbrev pub HasBlock : Tool → Type 0
HasBlock b = (b.started ≡ true) ⊎ ((b.id ≡ "") × (b.name ≡ "") × (b.argument_fragments ≡ []))

abbrev pub IsSound : (String → Decoded) → (List String → String) → Tool → Type 0
IsSound decode trimmed b = HasArguments decode trimmed b × HasBlock b

-- Some tool is not sound.
abbrev pub SomeFaulty : (String → Decoded) → (List String → String) → Tools → Type 0
SomeFaulty decode trimmed [] = ⊥
SomeFaulty decode trimmed ((k, b) ∷ m) =
    (¬ (IsSound decode trimmed b)) ⊎ SomeFaulty decode trimmed m

abbrev is_no_object : Decoded → Bool
is_no_object x = elim x [ decoded fs ↦ false | _ ↦ true ]

decoded_other : (x : Decoded) → is_no_object x ≡ false → (fs : Members) × (x ≡ decoded fs)
decoded_other malformed h = ground arith
decoded_other nil h = ground arith
decoded_other (decoded fs) h = (fs, refl)

bad_arguments-HasArguments :
    (decode : String → Decoded) (trimmed : List String → String) (b : Tool)
    → bad_arguments decode trimmed b ≡ false
    → HasArguments decode trimmed b
unfolding bad_arguments
bad_arguments-HasArguments decode trimmed b h =
    elim (Bool-cases (is_empty (trimmed b.argument_fragments))) [
      | inl blank ↦ inl ((eq_iff (trimmed b.argument_fragments) "").0 blank)
      | inr filled ↦
          inr (decoded_other (decode (trimmed b.argument_fragments)) (ground (arith, filled)))
    ]

HasArguments-bad_arguments :
    (decode : String → Decoded) (trimmed : List String → String) (b : Tool)
    → HasArguments decode trimmed b
    → bad_arguments decode trimmed b ≡ false
unfolding bad_arguments
HasArguments-bad_arguments decode trimmed b (inl blank) =
    let same = (eq_iff (trimmed b.argument_fragments) "").1 blank in ground (arith, same)
HasArguments-bad_arguments decode trimmed b (inr (fs, e)) = ground (arith, e)

no_fragments : (xs : List String) → leb (length xs) 0 ≡ true → xs ≡ []
no_fragments [] h = refl
no_fragments (x ∷ xs) h = ground arith

incomplete-HasBlock : (b : Tool) → incomplete b ≡ false → HasBlock b
unfolding incomplete
incomplete-HasBlock b h = elim (Bool-cases b.started) [
  | inl begun ↦ inl begun
  | inr other ↦
      let no_id : is_empty b.id ≡ true = ground (arith, other) in
      let no_name : is_empty b.name ≡ true = ground (arith, other) in
      let no_arguments : leb (length b.argument_fragments) 0 ≡ true = ground (arith, other) in
      inr (
        (eq_iff b.id "").0 no_id,
        (eq_iff b.name "").0 no_name,
        no_fragments b.argument_fragments no_arguments,
      )
]

HasBlock-incomplete : (b : Tool) → HasBlock b → incomplete b ≡ false
unfolding incomplete
HasBlock-incomplete b (inl begun) = ground (arith, begun)
HasBlock-incomplete b (inr (no_id, no_name, no_arguments)) =
    let id = (eq_iff b.id "").1 no_id in
    let name = (eq_iff b.name "").1 no_name in
    let none_left : leb (length b.argument_fragments) 0 ≡ true = rw no_arguments refl in
    ground (arith, id, name, none_left)

pub fault-IsSound :
    (decode : String → Decoded) (trimmed : List String → String) (m : Tools)
    → fault decode trimmed m ≡ none
    → All (λ e. IsSound decode trimmed e.1) m
unfolding fault
fault-IsSound decode trimmed [] h = tt
fault-IsSound decode trimmed ((k, b) ∷ m) h =
    let fine : bad_arguments decode trimmed b ≡ false = ground arith in
    let whole : incomplete b ≡ false = ground arith in
    let rest : fault decode trimmed m ≡ none = ground arith in
    (
      (bad_arguments-HasArguments decode trimmed b fine, incomplete-HasBlock b whole),
      fault-IsSound decode trimmed m rest,
    )

pub fault-SomeFaulty :
    (decode : String → Decoded) (trimmed : List String → String) (m : Tools) (message : String)
    → fault decode trimmed m ≡ some message
    → SomeFaulty decode trimmed m
unfolding fault
fault-SomeFaulty decode trimmed [] message h = cc
fault-SomeFaulty decode trimmed ((k, b) ∷ m) message h =
    elim (Bool-cases (bad_arguments decode trimmed b || incomplete b)) [
      | inl faulty ↦ inl (λ sound.
          let fine = HasArguments-bad_arguments decode trimmed b sound.0 in
          let whole = HasBlock-incomplete b sound.1 in ground (arith, faulty, fine, whole))
      | inr sound ↦
          let rest : fault decode trimmed m ≡ some message = ground (arith, sound) in
          inr (fault-SomeFaulty decode trimmed m message rest)
    ]
