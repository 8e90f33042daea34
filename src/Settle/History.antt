-- ===== src/Settle/History.antt =====
-- The history of a settlement account (crates/solana-settle/src/processor.rs): what its commits have
-- in common.
use trust_ledger.Common.{
  not→true, ℕ, ◌+◌, ◌^◌, ◌≡◌, ◌≢◌, ◌<◌, ◌⊎◌, inl, inr, refl, sym, ap, ◌∙◌, subst, Bool, true, false,
  not, ◌&&◌, ◌==◌, ==→eq, ==→ne, ltb, ltb→lt, ltb→ge, Option, none, some, List, [], ◌∷◌, ◌++◌, drop,
  length, drop_all, append-nil, arith, if◌then◌else◌,
}
use trust_ledger.Wal.Bytes.{Bytes}
use trust_ledger.Settle.{
  ProgramError, missing_required_signature, custom, invalid_instruction_data, Pubkey,
  SettlementRoot, CommitParams, AccountInfo, Crates, Executed, failed, stored, len, initial_root,
  next_root, commit_root, process_commit_settlement, timestamp_of,
}

-- What a commit asks of the stored root and of who sends it.
pub record MayCommit (authority_info : AccountInfo) (params : CommitParams)
    (current : SettlementRoot) : Type 0 where
  pub signed : authority_info.is_signer ≡ true
  pub by_authority : current.authority ≡ authority_info.key
  pub not_empty : params.transfer_count ≢ 0
  pub in_sequence : params.batch_seq ≡ current.batch_seq + 1
  pub linked : (current.batch_seq ≡ 0) ⊎ (params.previous_root ≡ current.merkle_root)
  pub fits : current.total_settled_amount + params.total_settled_amount < 2 ^ 128

-- A test that let something through.
if_stored :
    (test : Bool) (e : ProgramError) (rest : Executed) (bytes : Bytes)
    → (if test then failed e else rest) ≡ stored bytes
    → (test ≡ false) × (rest ≡ stored bytes)
if_stored true e rest bytes h = cc
if_stored false e rest bytes h = (refl, h)

if_not_stored :
    (test : Bool) (e : ProgramError) (first : Executed) (bytes : Bytes)
    → (if test then first else failed e) ≡ stored bytes
    → (test ≡ true) × (first ≡ stored bytes)
if_not_stored true e first bytes h = (refl, h)
if_not_stored false e first bytes h = cc

found_stored :
    {X : Type 0} (o : Option X) (e : ProgramError) (next : X → Executed) (bytes : Bytes)
    → (elim o as (λ o'. Executed) [ none ↦ failed e | some x ↦ next x ]) ≡ stored bytes
    → (x : X) × (o ≡ some x) × (next x ≡ stored bytes)
found_stored none e next bytes h = cc
found_stored (some x) e next bytes h = (x, refl, h)

same_bytes : (written bytes : Bytes) → stored written ≡ stored bytes → bytes ≡ written
same_bytes written bytes h = cc

either_false : (a b : Bool) → (a && b) ≡ false → (a ≡ false) ⊎ (b ≡ false)
either_false true b h = inr h
either_false false b h = inl refl

-- Batches in a row, the latest first: numbered from 1, none empty, each naming the root before it.
pub data IsChain : List CommitParams → Type 0 where
  chain_start : IsChain []
  chain_first : (p : CommitParams) → p.batch_seq ≡ 1 → p.transfer_count ≢ 0 → IsChain (p ∷ [])
  chain_next :
      (p q : CommitParams) (ps : List CommitParams)
      → p.batch_seq ≡ q.batch_seq + 1
      → p.transfer_count ≢ 0
      → p.previous_root ≡ q.merkle_root
      → IsChain (q ∷ ps)
      → IsChain (p ∷ q ∷ ps)

abbrev pub settled : List CommitParams → ℕ
settled [] = 0
settled (p ∷ ps) = p.total_settled_amount + settled ps

-- The root that a chain leads to.
abbrev pub IsTip : List CommitParams → SettlementRoot → Type 0
IsTip [] root = root.batch_seq ≡ 0
IsTip (p ∷ ps) root =
    ((root.batch_seq ≡ p.batch_seq) × (root.merkle_root ≡ p.merkle_root)) × (0 < p.batch_seq)

-- Someone sends a batch, with accounts of their choice beside the settlement account.
pub record Submission : Type 0 where
  pub authority_info : AccountInfo
  pub others : List AccountInfo
  pub params : CommitParams

some_injective : {X : Type 0} (x y : X) → some x ≡ some y → x ≡ y
some_injective x y h = cc

-- A batch that may be committed extends the chain.
extended :
    (authority_info : AccountInfo) (p : CommitParams) (root : SettlementRoot)
    (batches : List CommitParams)
    → IsChain batches
    → IsTip batches root
    → MayCommit authority_info p root
    → IsChain (p ∷ batches)
extended authority_info p root [] chain tip may =
    chain_first p (omega (arith, may.in_sequence)) may.not_empty
extended authority_info p root (q ∷ ps) chain ((same_seq, same_root), later) may = elim may.linked [
  | inl first ↦ absurd (omega arith)
  | inr link ↦
      chain_next p q ps (omega (arith, may.in_sequence)) may.not_empty (link ∙ same_root) chain
]

module _ (crates : Crates) where
  -- A commit that goes through met its conditions, and the next root is what is stored, in front of
  -- what the account held behind the old one.
  pub record Commits (authority_info pda_info : AccountInfo) (others : List AccountInfo)
      (params : CommitParams) (bytes : Bytes) : Type 0 where
    pub current : SettlementRoot
    pub was_stored : crates.try_from_slice pda_info.account_data ≡ some current
    pub allowed : MayCommit authority_info params current
    pub written :
        bytes
        ≡ crates.serialize (
            next_root crates current params
              (current.total_settled_amount + params.total_settled_amount)
              (timestamp_of crates others))
          ++ drop len pda_info.account_data

  pub process_commit_settlement-Commits :
      (authority_info pda_info : AccountInfo) (others : List AccountInfo) (params : CommitParams)
      (bytes : Bytes)
      → process_commit_settlement crates (authority_info ∷ pda_info ∷ others) params ≡ stored bytes
      → Commits authority_info pda_info others params bytes
  unfolding process_commit_settlement commit_root
  process_commit_settlement-Commits authority_info pda_info others params bytes h =
      let held = pda_info.account_data in
      let (signed, h1) =
        if_stored (not authority_info.is_signer) missing_required_signature _ bytes h in
      let (not_empty, h2) = if_stored (params.transfer_count == 0) (custom 1003) _ bytes h1 in
      let (current, was_stored, h3) =
        found_stored (crates.try_from_slice held) invalid_instruction_data
          (commit_root crates authority_info params (timestamp_of crates others) held) bytes h2 in
      let total = current.total_settled_amount + params.total_settled_amount in
      let (authority, h4) =
        if_stored (not (current.authority == authority_info.key)) missing_required_signature _ bytes
          h3 in
      let (sequence, h5) =
        if_stored (not (params.batch_seq == current.batch_seq + 1)) (custom 1001) _ bytes h4 in
      let (link, h6) =
        if_stored (ltb 0 current.batch_seq && not (params.previous_root == current.merkle_root))
          (custom 1002) _ bytes h5 in
      let (small, h7) = if_not_stored (ltb total (2 ^ 128)) (custom 1005) _ bytes h6 in
      let (room, h8) =
        if_stored (ltb (length held) len) ProgramError.account_data_too_small _ bytes h7 in
      record {
        current = current;
        was_stored = was_stored;
        allowed = record {
          signed = not→true _ signed;
          by_authority = ==→eq _ _ (not→true _ authority);
          not_empty = ==→ne _ _ not_empty;
          in_sequence = ==→eq _ _ (not→true _ sequence);
          linked =
              elim (either_false (ltb 0 current.batch_seq)
                (not (params.previous_root == current.merkle_root)) link) [
                  | inl first ↦ inl (omega (arith, ltb→ge 0 current.batch_seq first))
                  | inr same ↦ inr (==→eq _ _ (not→true _ same))
                ];
          fits = ltb→lt _ _ small;
        };
        written = same_bytes _ bytes h8;
      }

  -- What the account holds behind a submission, and the batches that went through.
  abbrev pub keep : Executed → CommitParams → Bytes × List CommitParams → Bytes × List CommitParams
  keep (failed e) params state = state
  keep (stored bytes) params (held, batches) = (bytes, params ∷ batches)

  abbrev pub submit : Pubkey → Submission → Bytes × List CommitParams → Bytes × List CommitParams
  submit key s state =
      keep
        (process_commit_settlement crates
          (s.authority_info
            ∷ record { key = key; is_signer = false; account_data = state.0 }
            ∷ s.others)
          s.params)
        s.params state

  abbrev pub submit_all :
      Pubkey → List Submission → Bytes × List CommitParams → Bytes × List CommitParams
  submit_all key [] state = state
  submit_all key (s ∷ submissions) state = submit_all key submissions (submit key s state)

  -- The account holds the tip of the batches that went through, and their sum.
  pub record Settles (authority : Pubkey) (state : Bytes × List CommitParams) : Type 0 where
    pub root : SettlementRoot
    pub holds : state.0 ≡ crates.serialize root
    pub chained : IsChain state.1
    pub tip : IsTip state.1 root
    pub sum : root.total_settled_amount ≡ settled state.1
    pub same_authority : root.authority ≡ authority
    pub in_range : root.total_settled_amount < 2 ^ 128

  -- A commit that went through keeps what the account promises.
  Commits-Settles :
      (authority key : Pubkey) (s : Submission) (held bytes : Bytes) (batches : List CommitParams)
      → Settles authority (held, batches)
      → Commits s.authority_info
          (record { key = key; is_signer = false; account_data = held })
          s.others
          s.params
          bytes
      → Settles authority (bytes, s.params ∷ batches)
  Commits-Settles authority key s held bytes batches h c =
      let same : c.current ≡ h.root =
        some_injective _ _
          (sym c.was_stored ∙ ap crates.try_from_slice h.holds ∙ crates.reads_back h.root) in
      let size : length held ≡ 177 = ap length h.holds ∙ crates.serialized_len h.root in
      let nothing : drop len held ≡ [] = drop_all len held (omega (arith, size)) in
      let tip : IsTip batches c.current = subst (IsTip batches) (sym same) h.tip in
      let total = c.current.total_settled_amount + s.params.total_settled_amount in
      let next = next_root crates c.current s.params total (timestamp_of crates s.others) in
      record {
        root = next;
        holds = c.written ∙ ap (λ rest. crates.serialize next ++ rest) nothing ∙ append-nil _;
        chained = extended s.authority_info s.params c.current batches h.chained tip c.allowed;
        tip = ((refl, refl), omega (arith, c.allowed.in_sequence));
        sum = omega (arith, ap (λ root. root.total_settled_amount) same, h.sum);
        same_authority = ap (λ root. root.authority) same ∙ h.same_authority;
        in_range = c.allowed.fits;
      }

  keep-Settles :
      (authority key : Pubkey) (s : Submission) (r : Executed) (state : Bytes × List CommitParams)
      → Settles authority state
      → ((bytes : Bytes)
          → r ≡ stored bytes
          → Commits s.authority_info
              (record { key = key; is_signer = false; account_data = state.0 })
              s.others
              s.params
              bytes)
      → Settles authority (keep r s.params state)
  keep-Settles authority key s (failed e) state h commits = h
  keep-Settles authority key s (stored bytes) (held, batches) h commits =
      Commits-Settles authority key s held bytes batches h (commits bytes refl)

  submit-Settles :
      (authority key : Pubkey) (s : Submission) (state : Bytes × List CommitParams)
      → Settles authority state
      → Settles authority (submit key s state)
  submit-Settles authority key s state h =
      keep-Settles authority key s _ state h
        (λ bytes. process_commit_settlement-Commits s.authority_info _ s.others s.params bytes)

  submit_all_from :
      (authority key : Pubkey) (submissions : List Submission) (state : Bytes × List CommitParams)
      → Settles authority state
      → Settles authority (submit_all key submissions state)
  submit_all_from authority key [] state h = h
  submit_all_from authority key (s ∷ submissions) state h =
      submit_all_from authority key submissions (submit key s state)
        (submit-Settles authority key s state h)

  -- Whoever sends whatever batches to an initialized account, in whatever order: those that went
  -- through are in sequence from 1, none is empty, each names the root of the one before, their sum
  -- is the stored total and below 2 ^ 128, and the authority is the one that was set.
  pub submit_all-Settles :
      (authority bump key : ℕ) (submissions : List Submission)
      → Settles authority
          (submit_all key submissions (crates.serialize (initial_root crates authority bump), []))
  submit_all-Settles authority bump key submissions =
      submit_all_from authority key submissions _ (record {
        root = initial_root crates authority bump;
        holds = refl;
        chained = chain_start;
        tip = refl;
        sum = refl;
        same_authority = refl;
        in_range = omega arith;
      })
