-- ===== src/Startup/Supported.antt =====
-- Which chains a service that has started supports.
use relayer_svc.Base.{
  ℕ, ℤ, ◌≡◌, ◌≢◌, refl, ap, subst, ◌∙◌, String, str_eq, Bool, true, false, ◌||◌, Option, none, some,
  List, [], ◌∷◌, map, All, arith, case_option, if◌then◌else◌,
}
use relayer_svc.Chain.{type_evm, type_solana, type_ton, type_text}
use relayer_svc.Chain.Config.{Chain, ◌>>=◌, decode_all}
use relayer_svc.Repository.{
  Client, new_clients_repository, supports_chain, last_of, client-new_clients_repository,
}
use relayer_svc.Clients.{ChildClient, evm_child, solana_child, ton_child}
use relayer_svc.Evm.Startup as EvmStartup
use relayer_svc.Solana.Startup as SolanaStartup
use relayer_svc.Ton.Startup as TonStartup
use relayer_svc.Startup.{
  Setup, Parent, evm_parent, solana_parent, ton_parent, Configured, new_client, evm_client,
  solana_client, ton_client, chains, clients, program_id, configure, start_clients,
  repository_client,
}
use relayer_svc.Startup.Staffed.{Option-bind, guarded, of_some, by_type}

-- The chain's type has a client.
abbrev pub is_supported : Chain → Bool
is_supported c =
    str_eq c.chain_type (type_text type_solana)
    || str_eq c.chain_type (type_text type_ton)
    || str_eq c.chain_type (type_text type_evm)

-- The text is one of the texts.
abbrev pub is_among : String → List String → Bool
is_among s [] = false
is_among s (t ∷ ts) = str_eq t s || is_among s ts

abbrev pub parent_id : Parent → String
parent_id (evm_parent client chain) = chain.id
parent_id (solana_parent chain) = chain.id
parent_id (ton_parent client chain) = chain.id

-- A loop that keeps a value of its inputs.
map-decode_all :
    {A B C : Type 0} (f : A → Option B) (g : A → C) (h : B → C)
    → ((a : A) (b : B) → f a ≡ some b → h b ≡ g a)
    → (xs : List A) (ys : List B) → decode_all f xs ≡ some ys
    → map h ys ≡ map g xs
unfolding decode_all
map-decode_all f g h k [] ys e = of_some (λ zs. map h zs ≡ []) [] ys e refl
map-decode_all f g h k (x ∷ xs) ys e =
    let (y, p, e') = Option-bind (f x) _ ys e in
    let (ys', q, e'') = Option-bind (decode_all f xs) _ ys e' in
    of_some (λ zs. map h zs ≡ map g (x ∷ xs)) (y ∷ ys') ys e''
      (rw (k x y p, map-decode_all f g h k xs ys' q) refl)

-- What a chain is decoded as, behind the two guards of `FromChain`.
decoded :
    {A : Type 0} (P : A → Type 0) (b : Bool) (o : Option A) (test : A → Bool)
    → ((a : A) → o ≡ some a → P a)
    → (a : A) → (if b then (o >>= λ y. if test y then some y else none) else none) ≡ some a
    → P a
decoded P false o test h a e = absurd (cc e)
decoded P true o test h a e =
    let (y, p, q) = Option-bind o _ a e in
    let (k, same) = guarded (test y) y a q in subst P same (h y p)

evm-id :
    (x : EvmStartup.Setup) (c : Chain) (y : EvmStartup.EvmChain)
    → EvmStartup.decode x c ≡ some y
    → y.id ≡ c.id
unfolding EvmStartup.decode
evm-id x c y e = ground (arith, e)

solana-id :
    (x : SolanaStartup.Setup) (c : Chain) (y : SolanaStartup.SolanaChain)
    → SolanaStartup.decode x c ≡ some y
    → y.id ≡ c.id
unfolding SolanaStartup.decode
solana-id x c y e = ground (arith, e)

ton-id :
    (x : TonStartup.Setup) (c : Chain) (y : TonStartup.TonChain)
    → TonStartup.decode x c ≡ some y
    → y.id ≡ c.id
unfolding TonStartup.decode
ton-id x c y e = ground (arith, e)

-- The client is for the chain, whose type is supported.
abbrev IsFor : Chain → Parent → Type 0
IsFor c p = (is_supported c ≡ true) × (parent_id p ≡ c.id)

evm_client-id : (x : Setup) (c : Chain) (p : Parent) → evm_client x c ≡ some p → parent_id p ≡ c.id
unfolding evm_client EvmStartup.from_chain
evm_client-id x c p e =
    let (chain, q, e') = Option-bind (EvmStartup.from_chain x.evm c) _ p e in
    let (client, r, e'') = Option-bind (EvmStartup.new_bridge_client x.evm chain) _ p e' in
    of_some (λ y. parent_id y ≡ c.id) (evm_parent client chain) p e''
      (decoded (λ y. y.id ≡ c.id) _ (EvmStartup.decode x.evm c) _ (evm-id x.evm c) chain q)

solana_client-id :
    (x : Setup) (c : Chain) (p : Parent) → solana_client x c ≡ some p → parent_id p ≡ c.id
unfolding solana_client SolanaStartup.from_chain
solana_client-id x c p e =
    let (chain, q, e') = Option-bind (SolanaStartup.from_chain x.solana c) _ p e in
    of_some (λ y. parent_id y ≡ c.id) (solana_parent chain) p e'
      (decoded (λ y. y.id ≡ c.id) _ (SolanaStartup.decode x.solana c) _ (solana-id x.solana c) chain
        q)

ton_client-id : (x : Setup) (c : Chain) (p : Parent) → ton_client x c ≡ some p → parent_id p ≡ c.id
unfolding ton_client TonStartup.from_chain
ton_client-id x c p e =
    let (chain, q, e') = Option-bind (TonStartup.from_chain x.ton c) _ p e in
    let (client, r, e'') = Option-bind (TonStartup.new_bridge_client x.ton chain) _ p e' in
    of_some (λ y. parent_id y ≡ c.id) (ton_parent client chain) p e''
      (decoded (λ y. y.id ≡ c.id) _ (TonStartup.decode x.ton c) _ (ton-id x.ton c) chain q)

new_client-IsFor : (x : Setup) (c : Chain) (p : Parent) → new_client x c ≡ some p → IsFor c p
unfolding new_client
new_client-IsFor x c p e = (
  ground (arith, e),
  by_type (λ y. parent_id y ≡ c.id) _ _ _ p (solana_client-id x c p)
      (by_type (λ y. parent_id y ≡ c.id) _ _ _ p (ton_client-id x c p)
        (by_type (λ y. parent_id y ≡ c.id) _ _ none p (evm_client-id x c p) (λ q. absurd (cc q))))
      e,
)

of_record :
    {A : Type 0} (o : Option A) (make : A → List ChildClient) (id : String) (workers : ℤ)
    (c : Configured)
    → (o >>= λ a. some (record { chain_id = id; workers = workers; children = make a })) ≡ some c
    → c.chain_id ≡ id
of_record none make id workers c e = absurd (cc e)
of_record (some a) make id workers c e = of_some (λ y. y.chain_id ≡ id) _ c e refl

configure-id :
    (x : Setup) (program : List ℕ) (p : Parent) (c : Configured)
    → configure x program p ≡ some c
    → c.chain_id ≡ parent_id p
unfolding configure
configure-id x program (evm_parent client chain) c e =
    of_record (EvmStartup.child_signers x.evm chain) (map (evm_child client)) chain.id chain.workers
      c e
configure-id x program (solana_parent chain) c e =
    of_record (SolanaStartup.child_signers chain)
      (map (solana_child (SolanaStartup.new_bridge_client x.solana program chain))) chain.id
      chain.workers c e
configure-id x program (ton_parent client chain) c e =
    of_record (TonStartup.child_signers x.ton chain) (map (ton_child client)) chain.id chain.workers
      c e

All-inputs :
    {A B : Type 0} (f : A → Option B) (Q : A → Type 0)
    → ((a : A) (b : B) → f a ≡ some b → Q a)
    → (xs : List A) (ys : List B) → decode_all f xs ≡ some ys
    → All Q xs
unfolding decode_all
All-inputs f Q k [] ys e = tt
All-inputs f Q k (x ∷ xs) ys e =
    let (y, p, e') = Option-bind (f x) _ ys e in
    let (ys', q, e'') = Option-bind (decode_all f xs) _ ys e' in
    (k x y p, All-inputs f Q k xs ys' q)

chains_same :
    (configs listed : List Chain)
    → chains configs ≡ some listed
    → (configs ≢ []) × (listed ≡ configs)
unfolding chains
chains_same [] listed e = absurd (cc e)
chains_same (c ∷ cs) listed e = (λ q. cc q, cc e)

-- The repository's last client for a name is there exactly for the names that are configured.
last_of-is_among :
    (id : String) (cs : List Client)
    → case_option (last_of id cs) false (λ c. true) ≡ is_among id (map (λ c. c.chain_id) cs)
last_of-is_among id [] = refl
last_of-is_among id (c ∷ cs) = ground (arith, last_of-is_among id cs)

map-repository_client :
    (cs : List Configured)
    → map (λ c. c.chain_id) (map repository_client cs) ≡ map (λ c. c.chain_id) cs
unfolding repository_client
map-repository_client [] = refl
map-repository_client (c ∷ cs) = ap (λ l. c.chain_id ∷ l) (map-repository_client cs)

-- The service starts only with a configuration that has a chain, and only chains of the types EVM, TON and
-- SOL. Its repository then supports exactly the chains whose ids are configured.
pub start_clients-supports :
    (x : Setup) (configs : List Chain) (cs : List Configured)
    → start_clients x configs ≡ some cs
    → (configs ≢ [])
      × All (λ c. is_supported c ≡ true) configs
      × ((id : String)
          → supports_chain (new_clients_repository (map repository_client cs)) id
            ≡ is_among id (map (λ c. c.id) configs))
unfolding start_clients clients
start_clients-supports x configs cs e =
    let (parents, p, e') = Option-bind (clients x configs) _ cs e in
    let (listed, q, p') = Option-bind (chains configs) _ parents p in
    let (some_chain, same) = chains_same configs listed q in
    let decoded_all : decode_all (new_client x) configs ≡ some parents =
      subst (λ l. decode_all (new_client x) l ≡ some parents) same p' in
    let ids : map (λ c. c.chain_id) cs ≡ map (λ c. c.id) configs =
      map-decode_all (configure x (program_id [] parents)) parent_id (λ c. c.chain_id)
        (configure-id x (program_id [] parents)) parents cs e'
      ∙ map-decode_all (new_client x) (λ c. c.id) parent_id (λ c y r. (new_client-IsFor x c y r).1)
          configs parents decoded_all in
    (
      some_chain,
      All-inputs (new_client x) (λ c. is_supported c ≡ true) (λ c y r. (new_client-IsFor x c y r).0)
          configs parents decoded_all,
      λ id.
          (client-new_clients_repository id (map repository_client cs)).1
          ∙ last_of-is_among id (map repository_client cs)
          ∙ ap (is_among id) (map-repository_client cs ∙ ids),
    )
