-- ===== src/Ed25519/BundleRead.antt =====
-- The program reads from the Ed25519 instruction of a bundle the commitments that the client signed.
use agon_protocol.Base.{
  ℕ, zero, suc, ◌+◌, ◌<◌, List, [], ◌∷◌, map, Option, none, some, get_elem?, length, All, true,
  ==_refl, ok, ◌>>=◌, ok-injective, ◌≡◌, refl, sym, ap, ◌∙◌, arith,
}
use agon_protocol.Base.Int.{ℤ, pos}
use agon_protocol.Message.Rounds.{magnitude}
use agon_protocol.Base.Reordered.{All-get_elem?}
use agon_protocol.Message.Client.{BigNumber, CommitmentParams}
use agon_protocol.Message.Commitments.{
  CommitmentFits, commitment_of, message, create-message, parse-message,
}
use agon_protocol.Ed25519.{SignedEntry, cursor_after}
use agon_protocol.Ed25519.Layout.{
  IsEntry, header_size, layout, create_multi_message_ed25519_instruction-layout,
}
use agon_protocol.Ed25519.RoundTrip.{create_multi_message_ed25519_instruction-Carries}
use agon_protocol.Ed25519.Bundle.{
  BundleChannel, bundle_entries, bundle_instruction, BundleCommitment, agrees, parse_bundle_entry,
  parse_bundle,
}

-- `committedAmount ?? amount`, where one is given.
abbrev pub committed_in : CommitmentParams → ℤ
committed_in p = elim p.committed_amount [
  | some committed ↦ committed
  | none ↦ elim p.amount [ none ↦ pos 0 | some amount ↦ amount ]
]

abbrev pub entry_of : BundleChannel → SignedEntry
entry_of c = record { signer = c.signer; message = message c.params (committed_in c.params) }

abbrev pub read_of : BundleChannel → BundleCommitment
read_of c = record {
  parsed = commitment_of c.params (committed_in c.params);
  signer_pubkey = c.signer.public_key;
}

-- A channel whose commitment fits the wire format, of a domain, a token and a payee.
abbrev pub IsChannel : List ℕ → ℕ → ℤ → BundleChannel → Type 0
IsChannel domain token payee c =
    CommitmentFits c.params (committed_in c.params)
    × (c.params.message_domain ≡ domain)
    × (c.params.token_id ≡ token)
    × (c.params.payee_id ≡ payee)
    × IsEntry (entry_of c)

bundle_entries_lem :
    (bn : BigNumber) (domain : List ℕ) (token : ℕ) (payee : ℤ) (cs : List BundleChannel)
    → All (IsChannel domain token payee) cs
    → bundle_entries bn cs ≡ ok (map entry_of cs)
unfolding bundle_entries
bundle_entries_lem bn domain token payee [] h = refl
bundle_entries_lem bn domain token payee (c ∷ cs) (is, rest) =
    rw
      (
        create-message c.params (committed_in c.params) is.0 bn,
        bundle_entries_lem bn domain token payee cs rest,
      )
      refl

entries-IsEntry :
    (domain : List ℕ) (token : ℕ) (payee : ℤ) (cs : List BundleChannel)
    → All (IsChannel domain token payee) cs
    → All IsEntry (map entry_of cs)
entries-IsEntry domain token payee [] h = tt
entries-IsEntry domain token payee (c ∷ cs) (is, rest) =
    (is.4, entries-IsEntry domain token payee cs rest)

entry_of_at :
    (cs : List BundleChannel) (i : ℕ) (c : BundleChannel)
    → get_elem? cs i ≡ some c
    → get_elem? (map entry_of cs) i ≡ some (entry_of c)
entry_of_at [] i c h = cc
entry_of_at (x ∷ cs) zero c h = cc
entry_of_at (x ∷ cs) (suc i) c h = entry_of_at cs i c h

module _ (domain : List ℕ) (token : ℕ) (payee : ℤ) where
  -- Of one entry.
  parse_bundle_entry-read_of :
      (cs : List BundleChannel) (i : ℕ) (c : BundleChannel)
      → length (map entry_of cs) < 256
      → cursor_after (header_size (map entry_of cs)) (map entry_of cs) < 65536
      → All (IsChannel domain token payee) cs
      → get_elem? cs i ≡ some c
      → parse_bundle_entry domain (layout (map entry_of cs)) i ≡ ok (read_of c)
  unfolding parse_bundle_entry
  parse_bundle_entry-read_of cs i c few short all h =
      let es = map entry_of cs in
      let entries = entries-IsEntry domain token payee cs all in
      let (ix_data, created, (offsets, parsed, key, text, signature)) =
        create_multi_message_ed25519_instruction-Carries es i (entry_of c) few short entries
          (entry_of_at cs i c h) in
      let same : ix_data ≡ layout es =
        ok-injective
          (sym created ∙ create_multi_message_ed25519_instruction-layout es few short entries) in
      let is = All-get_elem? (IsChannel domain token payee) cs i c all h in
      let commitment = parse-message c.params (committed_in c.params) is.0 in
      rw (sym same, parsed, key, text, sym is.1, commitment) refl

  -- What the entries before have shown is the token and the payee of all.
  parse_bundle-read_of :
      (ix_data : List ℕ) (cs : List BundleChannel) (i : ℕ) (seen_token seen_payee : Option ℕ)
      → All (IsChannel domain token payee) cs
      → ((j : ℕ) (c : BundleChannel)
          → get_elem? cs j ≡ some c
          → parse_bundle_entry domain ix_data (i + j) ≡ ok (read_of c))
      → agrees seen_token token ≡ true
      → agrees seen_payee (magnitude payee) ≡ true
      → parse_bundle domain ix_data (length cs) i seen_token seen_payee ≡ ok (map read_of cs)
  unfolding parse_bundle
  parse_bundle-read_of ix_data [] i seen_token seen_payee all reads h k = refl
  parse_bundle-read_of ix_data (c ∷ cs) i seen_token seen_payee (is, all) reads h k =
      let here : i + 0 ≡ i = omega arith in
      let first : parse_bundle_entry domain ix_data i ≡ ok (read_of c) =
        ap (parse_bundle_entry domain ix_data) (sym here) ∙ reads 0 c refl in
      let rest =
        parse_bundle-read_of ix_data cs (i + 1) (some token) (some (magnitude payee)) all
          (λ j x at.
            let next : i + 1 + j ≡ i + suc j = omega arith in
            ap (parse_bundle_entry domain ix_data) next ∙ reads (suc j) x at)
          (==_refl token) (==_refl (magnitude payee)) in
      rw (first, is.2, is.3, h, k, rest) refl

-- For a chunk of fewer than 256 channels with one message domain, one token and one payee, whose
-- commitments fit the wire format and whose Ed25519 instruction is shorter than 65536 bytes, the client
-- creates the instruction, and the loop of the program accepts it and reads, in order, what each payer
-- committed and the key that signed it. Keys have 32 bytes and signatures 64.
pub parse_bundle-bundle_instruction :
    (bn : BigNumber) (domain : List ℕ) (token : ℕ) (payee : ℤ) (cs : List BundleChannel)
    → All (IsChannel domain token payee) cs
    → length (map entry_of cs) < 256
    → cursor_after (header_size (map entry_of cs)) (map entry_of cs) < 65536
    → (bundle_instruction bn cs >>= λ ix_data. parse_bundle domain ix_data (length cs) 0 none none)
      ≡ ok (map read_of cs)
unfolding bundle_instruction
parse_bundle-bundle_instruction bn domain token payee cs all few short =
    let es = map entry_of cs in
    let created =
      create_multi_message_ed25519_instruction-layout es few short
        (entries-IsEntry domain token payee cs all) in
    rw (bundle_entries_lem bn domain token payee cs all, created)
      (parse_bundle-read_of domain token payee (layout es) cs 0 none none all
        (λ j c at.
          let from_start : 0 + j ≡ j = omega arith in
          ap (parse_bundle_entry domain (layout es)) from_start
          ∙ parse_bundle_entry-read_of domain token payee cs j c few short all at)
        refl refl)
