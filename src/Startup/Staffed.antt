-- ===== src/Startup/Staffed.antt =====
-- What holds of the clients once the service has started.
use relayer_svc.Base.{
  ℕ, suc, ℤ, pos, ◌≢◌, String, ◌<◌, ◌≡◌, refl, ap, subst, sym, ◌∙◌, Bool, true, false, Option, none,
  some, List, [], ◌∷◌, map, length, All, arith, if◌then◌else◌,
}
use relayer_svc.Chain.{Bytes}
use relayer_svc.Chain.Config.{Chain, ◌>>=◌, decode_all}
use relayer_svc.Chain.Operators.{
  configure_child_clients, enough_keys, has_signer, IsDealt, configure_child_clients-IsDealt,
}
use relayer_svc.Clients.{ChildClient, evm_child, solana_child, ton_child}
use relayer_svc.Evm.Startup as EvmStartup
use relayer_svc.Solana.Startup as SolanaStartup
use relayer_svc.Ton.Startup as TonStartup
use relayer_svc.Startup.{
  Setup, Parent, evm_parent, solana_parent, ton_parent, Configured, new_client, evm_client,
  solana_client, ton_client, chains, clients, program_id, configure, start_clients,
}

-- A step that has a value has a value of each of its steps.
pub Option-bind :
    {A B : Type 0} (o : Option A) (f : A → Option B) (b : B)
    → (o >>= f) ≡ some b
    → (a : A) × (o ≡ some a) × (f a ≡ some b)
Option-bind none f b h = absurd (cc h)
Option-bind (some a) f b h = (a, refl, h)

pub guarded :
    {A : Type 0} (b : Bool) (a a' : A)
    → (if b then some a else none) ≡ some a'
    → (b ≡ true) × (a ≡ a')
guarded true a a' h = (refl, cc h)
guarded false a a' h = absurd (cc h)

pub of_some : {A : Type 0} (P : A → Type 0) (a b : A) → some a ≡ some b → P a → P b
of_some P a b e h = subst P (cc e) h

-- Every value that a loop decodes comes from an input.
pub All-decode_all :
    {A B : Type 0} (f : A → Option B) (Q : A → Type 0) (P : B → Type 0)
    → ((a : A) (b : B) → Q a → f a ≡ some b → P b)
    → (xs : List A) (ys : List B) → All Q xs
    → decode_all f xs ≡ some ys
    → All P ys
unfolding decode_all
All-decode_all f Q P h [] ys k e = of_some (All P) [] ys e tt
All-decode_all f Q P h (x ∷ xs) ys k e =
    let (y, p, e') = Option-bind (f x) _ ys e in
    let (ys', q, e'') = Option-bind (decode_all f xs) _ ys e' in
    of_some (All P) (y ∷ ys') ys e'' (h x y k.0 p, All-decode_all f Q P h xs ys' k.1 q)

length-decode_all :
    {A B : Type 0} (f : A → Option B) (xs : List A) (ys : List B)
    → decode_all f xs ≡ some ys
    → length xs ≡ length ys
unfolding decode_all
length-decode_all f [] ys e = of_some (λ zs. 0 ≡ length zs) [] ys e refl
length-decode_all f (x ∷ xs) ys e =
    let (y, p, e') = Option-bind (f x) _ ys e in
    let (ys', q, e'') = Option-bind (decode_all f xs) _ ys e' in
    of_some (λ zs. length (x ∷ xs) ≡ length zs) (y ∷ ys') ys e''
      (omega (arith, length-decode_all f xs ys' q))

length-map : {A B : Type 0} (f : A → B) (xs : List A) → length (map f xs) ≡ length xs
length-map f [] = refl
length-map f (x ∷ xs) = omega (arith, length-map f xs)

pub anything : {A : Type 0} (xs : List A) → All (λ x. Unit {0}) xs
anything [] = tt
anything (x ∷ xs) = (tt, anything xs)

-- A client with as many children as workers, each with a signer.
abbrev pub HasSigner : ChildClient → Type 0
HasSigner (evm_child c signers) = signers ≢ []
HasSigner (solana_child c signers) = signers ≢ []
HasSigner (ton_child c signers) = signers ≢ []

abbrev pub IsStaffed : Configured → Type 0
IsStaffed c = (c.workers ≡ pos (length c.children)) × All HasSigner c.children

All-has_signer :
    (cs : List (List Bytes))
    → ((j : ℕ) → j < length cs → has_signer j cs ≡ true)
    → All (λ signers. signers ≢ []) cs
unfolding has_signer
All-has_signer [] h = tt
All-has_signer ([] ∷ cs) h = absurd (let q : false ≡ true = h 0 (omega arith) in cc q)
All-has_signer ((k ∷ ks) ∷ cs) h = (λ q. cc q, All-has_signer cs λ j l. h (suc j) (omega arith))

-- The children that the dealt keys make.
dealt-IsStaffed :
    (make : List Bytes → ChildClient)
    → ((signers : List Bytes) → signers ≢ [] → HasSigner (make signers))
    → (id : String) (workers : ℤ) (keys : List Bytes) (cs : List (List Bytes))
    → enough_keys workers keys ≡ true
    → configure_child_clients workers keys ≡ some cs
    → IsStaffed (record { chain_id = id; workers = workers; children = map make cs })
dealt-IsStaffed make h id workers keys cs enough e =
    let (w, j) : IsDealt workers keys (some cs) =
      subst (IsDealt workers keys) e (configure_child_clients-IsDealt workers keys enough) in
    (w ∙ ap pos (sym (length-map make cs)), All-made make h cs (All-has_signer cs j))
  where
    All-made :
        (make : List Bytes → ChildClient)
        → ((signers : List Bytes) → signers ≢ [] → HasSigner (make signers))
        → (cs : List (List Bytes)) → All (λ signers. signers ≢ []) cs
        → All HasSigner (map make cs)
    All-made make h [] k = tt
    All-made make h (c ∷ cs) k = (h c k.0, All-made make h cs k.1)

-- `FromChain` has compared the workers with the keys.
abbrev HasKeys : Parent → Type 0
HasKeys (evm_parent client chain) = enough_keys chain.workers chain.operators_priv_keys ≡ true
HasKeys (solana_parent chain) = enough_keys chain.workers chain.operators_wallets ≡ true
HasKeys (ton_parent client chain) = enough_keys chain.workers chain.operators_private_keys ≡ true

enough_keys-length :
    (workers : ℤ) (keys keys' : List Bytes)
    → length keys ≡ length keys'
    → enough_keys workers keys ≡ true
    → enough_keys workers keys' ≡ true
unfolding enough_keys
enough_keys-length workers keys keys' e h = rw (sym e) h

pub accepted :
    {A : Type 0} (b : Bool) (o : Option A) (test : A → Bool) (a : A)
    → (if b then (o >>= λ y. if test y then some y else none) else none) ≡ some a
    → test a ≡ true
accepted false o test a e = absurd (cc e)
accepted true o test a e =
    let (y, p, q) = Option-bind o _ a e in
    let (k, same) = guarded (test y) y a q in subst (λ z. test z ≡ true) same k

evm_client-HasKeys : (x : Setup) (c : Chain) (p : Parent) → evm_client x c ≡ some p → HasKeys p
unfolding evm_client EvmStartup.from_chain
evm_client-HasKeys x c p e =
    let (chain, q, e') = Option-bind (EvmStartup.from_chain x.evm c) _ p e in
    let (client, r, e'') = Option-bind (EvmStartup.new_bridge_client x.evm chain) _ p e' in
    of_some HasKeys (evm_parent client chain) p e'' (
      accepted _ (EvmStartup.decode x.evm c) (λ y. enough_keys y.workers y.operators_priv_keys)
        chain q)

solana_client-HasKeys :
    (x : Setup) (c : Chain) (p : Parent) → solana_client x c ≡ some p → HasKeys p
unfolding solana_client SolanaStartup.from_chain
solana_client-HasKeys x c p e =
    let (chain, q, e') = Option-bind (SolanaStartup.from_chain x.solana c) _ p e in
    of_some HasKeys (solana_parent chain) p e' (
      accepted _ (SolanaStartup.decode x.solana c) (λ y. enough_keys y.workers y.operators_wallets)
        chain q)

ton_client-HasKeys : (x : Setup) (c : Chain) (p : Parent) → ton_client x c ≡ some p → HasKeys p
unfolding ton_client TonStartup.from_chain
ton_client-HasKeys x c p e =
    let (chain, q, e') = Option-bind (TonStartup.from_chain x.ton c) _ p e in
    let (client, r, e'') = Option-bind (TonStartup.new_bridge_client x.ton chain) _ p e' in
    of_some HasKeys (ton_parent client chain) p e'' (
      accepted _ (TonStartup.decode x.ton c) (λ y. enough_keys y.workers y.operators_private_keys)
        chain q)

pub by_type :
    {A : Type 0} (P : A → Type 0) (b : Bool) (u v : Option A) (a : A)
    → (u ≡ some a → P a)
    → (v ≡ some a → P a)
    → (if b then u else v) ≡ some a
    → P a
by_type P true u v a h k e = h e
by_type P false u v a h k e = k e

new_client-HasKeys : (x : Setup) (c : Chain) (p : Parent) → new_client x c ≡ some p → HasKeys p
unfolding new_client
new_client-HasKeys x c p = by_type HasKeys _ _ _ p (solana_client-HasKeys x c p) (
    by_type HasKeys _ _ _ p (ton_client-HasKeys x c p)
      (by_type HasKeys _ _ none p (evm_client-HasKeys x c p) (λ q. absurd (cc q))))

configure-IsStaffed :
    (x : Setup) (program : Bytes) (p : Parent) (c : Configured)
    → HasKeys p
    → configure x program p ≡ some c
    → IsStaffed c
unfolding configure EvmStartup.child_signers SolanaStartup.child_signers TonStartup.child_signers
configure-IsStaffed x program (evm_parent client chain) c h e =
    let (cs, q, e') = Option-bind _ _ c e in
    of_some IsStaffed _ c e' (
      dealt-IsStaffed (evm_child client) (λ s k. k) chain.id chain.workers _ cs
        (enough_keys-length chain.workers chain.operators_priv_keys _
          (sym (length-map x.evm.pubkey_to_address chain.operators_priv_keys)) h)
        q)
configure-IsStaffed x program (solana_parent chain) c h e =
    let (cs, q, e') = Option-bind _ _ c e in
    of_some IsStaffed _ c e' (
      dealt-IsStaffed (solana_child (SolanaStartup.new_bridge_client x.solana program chain))
        (λ s k. k) chain.id chain.workers chain.operators_wallets cs h q)
configure-IsStaffed x program (ton_parent client chain) c h e =
    let (cs, q, e') = Option-bind (TonStartup.child_signers x.ton chain) _ c e in
    let (wallets, r, q') =
      Option-bind (decode_all x.ton.wallet_from_private_key chain.operators_private_keys) _ cs q in
    of_some IsStaffed _ c e' (
      dealt-IsStaffed (ton_child client) (λ s k. k) chain.id chain.workers wallets cs
        (enough_keys-length chain.workers chain.operators_private_keys wallets
          (length-decode_all x.ton.wallet_from_private_key chain.operators_private_keys wallets r)
          h)
        q')

-- If the service starts, every client of its repository has as many children as workers, and each child
-- has a signer.
pub start_clients-IsStaffed :
    (x : Setup) (configs : List Chain) (cs : List Configured)
    → start_clients x configs ≡ some cs
    → All IsStaffed cs
unfolding start_clients clients
start_clients-IsStaffed x configs cs e =
    let (parents, p, e') = Option-bind (clients x configs) _ cs e in
    let (listed, q, p') = Option-bind (chains configs) _ parents p in
    All-decode_all (configure x (program_id [] parents)) HasKeys IsStaffed
      (λ parent c k r. configure-IsStaffed x (program_id [] parents) parent c k r) parents cs
      (All-decode_all (new_client x) (λ c. Unit {0}) HasKeys
        (λ c parent k r. new_client-HasKeys x c parent r) listed parents (anything listed) p')
      e'
