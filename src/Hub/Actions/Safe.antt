-- ===== src/Hub/Actions/Safe.antt =====
-- What a drain and a deletion have checked when they end well.
use Prim.Native.String as Str
use sovran_bitcoin.Base.{
  ℕ, ◌*◌, ◌/◌, String, ◌≡◌, refl, ◌⊎◌, inl, inr, true, false, Option, none, some, not, Bool-cases,
  arith,
}
use sovran_bitcoin.Base.Int.{
  ℤ, pos, negsuc, ◌+ℤ◌, ◌*ℤ◌, ◌==ℤ◌, ◌≤ℤ◌, ◌<ℤ◌, floor_div, ltb_ℤ, leb_ℤ, int_laws, eq_of_parts,
  le_of_not-ltb, lt_of_not-leb,
}
use sovran_bitcoin.Base.Inverse.{bind_inverse, or_raise_inverse, raise_if_inverse, pure_inverse}
use sovran_bitcoin.Base.Monad.{Exc, ok, raised, bind_ok, pure, ◌>>=◌}
use sovran_bitcoin.Base.Reading.{Python}
use sovran_bitcoin.Base.Text.{nonempty}
use sovran_bitcoin.Hub.Actions.{
  balance_of, Drained, not_found, negative, pending, incomplete, no_pubkey, any, transferable, dust,
  ask, all_drained, verify_rest, empty_out, drain_settled, drain_found, move_out, nothing_to_move,
  drain_app, drain_wallet, remove_empty, remove_checked, remove_if_empty, remove_keyed, remove,
  removed, delete_settled, delete_app, delete_found, delete_wallet,
}
use sovran_bitcoin.Hub.Answered.{authenticated_request-answered}
use sovran_bitcoin.Hub.Client.{Call, Answer, Hub, Managed, Setting}
use sovran_bitcoin.Hub.Wallets.{find_managed_app, pending_txs}
use sovran_bitcoin.Store.Rows.{AppDict}

-- A balance in whole satoshis and what is left over.
pub record Splits (balance sats rest : ℤ) : Type 0 where
  pub whole : sats *ℤ 1000 +ℤ rest ≡ balance
  pub rest_lower : pos 0 ≤ℤ rest
  pub rest_upper : rest <ℤ pos 1000

transferable_lem : (n : ℕ) → transferable (pos n) ≡ pos (n / 1000 * 1000)
unfolding floor_div ◌*ℤ◌
transferable_lem n = ground arith

times : (k : ℕ) → pos k *ℤ 1000 ≡ pos (k * 1000)
unfolding ◌*ℤ◌
times k = ground arith

transferable-Splits : (b : ℤ) → pos 0 ≤ℤ b → Splits b (floor_div (transferable b) 1000) (dust b)
unfolding floor_div
transferable-Splits (pos n) h = rw (transferable_lem n) (record {
  whole = rw (times (n / 1000 * 1000 / 1000)) (omega int_laws);
  rest_lower = omega int_laws;
  rest_upper = omega int_laws;
})
transferable-Splits (negsuc n) h = absurd (omega arith)

zero-Splits : (b : ℤ) → pos 0 ≤ℤ b → (transferable b ==ℤ pos 0) ≡ true → Splits b (pos 0) (dust b)
unfolding floor_div
zero-Splits (pos n) h e =
    let e' : (pos (n / 1000 * 1000) ==ℤ pos 0) ≡ true = rw (transferable_lem n) at e in
    let none_left : n / 1000 * 1000 ≡ 0 = ground arith in
    rw (transferable_lem n) (record {
      whole = rw (times 0) (omega int_laws);
      rest_lower = omega int_laws;
      rest_upper = omega int_laws;
    })
zero-Splits (negsuc n) h e = absurd (omega arith)

module _ {S : Type 0} (py : Python) (hub : Hub S) (setting : Setting) (fuel : ℕ) where
  -- The hub's last word on a wallet: it was asked for the wallet, and showed it with this balance, just
  -- before the state that is left.
  abbrev pub Reported : ℕ → ℤ → Managed S → Type 0
  Reported id balance m =
      (t : String) × (s : S) × (shown : AppDict) × (hub.request (Call.one_app id) (some t) s
        ≡ (ok (Answer.wallet shown), m.hub))
      × (shown.id ≡ id)
      × (shown.balance_msat ≡ balance)

  -- What the hub's API promises of `GET /api/apps/{id}`: where it answers, it shows that wallet, with
  -- its balance. (The manager reads an answer that has no balance as 0.)
  abbrev pub ShowsWallets : Type 0
  ShowsWallets =
      (id : ℕ) (t : Option String) (s s' : S) (x : Answer)
      → hub.request (Call.one_app id) t s ≡ (ok x, s')
      → (a : AppDict) × (x ≡ Answer.wallet a) × (a.id ≡ id)

  asked-Reported :
      (id : ℕ) (balance : ℤ) (m m' : Managed S) (x : Answer)
      → ShowsWallets
      → ask py hub setting fuel (Call.one_app id) m ≡ (ok x, m')
      → balance_of x ≡ balance
      → Reported id balance m'
  asked-Reported id balance m m' x shows asked says =
      let (t, s, given) =
        authenticated_request-answered hub setting (Call.one_app id) m m' x asked in
      let (a, is_wallet, is_it) = shows id (some t) s m'.hub x given in
      (t, s, a, rw is_wallet at given, is_it, rw is_wallet at says)

  abbrev pub IsDrained : AppDict → Drained → Managed S → Type 0
  IsDrained a d m =
      Splits a.balance_msat d.drained_sats d.dust_msat
      × ((d.drained_sats ≡ pos 0) ⊎ Reported a.id d.dust_msat m)

  move_out-IsDrained :
      (a : AppDict) (d : Drained) (m m' : Managed S)
      → ShowsWallets
      → pos 0 ≤ℤ a.balance_msat
      → move_out py hub setting fuel a m ≡ (ok d, m')
      → IsDrained a d m'
  move_out-IsDrained a d m m' shows sign h =
      let (x, m1, moved, rest) =
        bind_inverse
          (ask py hub setting fuel (
            Call.transfer (some a.id) none (transferable a.balance_msat)
              (Str.◌++◌ "Drain isolated subwallet " a.name)))
          (λ _. ask py hub setting fuel (Call.one_app a.id) >>= verify_rest py hub setting fuel a) m
          d m' h in
      let (answer, m2, asked, check) =
        bind_inverse (ask py hub setting fuel (Call.one_app a.id))
          (verify_rest py hub setting fuel a) m1 d m' rest in
      let (same, last) =
        raise_if_inverse (not (balance_of answer ==ℤ dust a.balance_msat))
          (incomplete "Drain verification failed: final balance does not match expected dust.")
          (pure (all_drained py hub setting fuel a)) m2 d m' check in
      let (result, state) = pure_inverse (all_drained py hub setting fuel a) d m2 m' last in
      rw (← result) (
        transferable-Splits a.balance_msat sign,
        inr (
            asked-Reported a.id (dust a.balance_msat) m1 m' answer shows (rw (← state) asked)
              (eq_of_not (balance_of answer) (dust a.balance_msat) same)),
      )
    where
      eq_of_not : (x y : ℤ) → not (x ==ℤ y) ≡ false → x ≡ y
      eq_of_not x y e = eq_of_parts x y (ground arith)

  empty_out-IsDrained :
      (a : AppDict) (d : Drained) (m m' : Managed S)
      → ShowsWallets
      → pos 0 ≤ℤ a.balance_msat
      → empty_out py hub setting fuel a m ≡ (ok d, m')
      → IsDrained a d m'
  empty_out-IsDrained a d m m' shows sign h =
      elim (Bool-cases (transferable a.balance_msat ==ℤ pos 0)) [
        | inl none_left ↦
            let (result, state) =
              pure_inverse (nothing_to_move py hub setting fuel a) d m m' (rw none_left at h) in
            rw (← result) (zero-Splits a.balance_msat sign none_left, inl refl)
        | inr some_left ↦ move_out-IsDrained a d m m' shows sign (rw some_left at h)
      ]

  drain_app-IsDrained :
      (a : AppDict) (d : Drained) (m m' : Managed S)
      → ShowsWallets
      → drain_app py hub setting fuel a m ≡ (ok d, m')
      → (pos 0 ≤ℤ a.balance_msat) × IsDrained a d m'
  drain_app-IsDrained a d m m' shows h =
      let (sign, rest) =
        raise_if_inverse (ltb_ℤ a.balance_msat (pos 0)) (negative "Wallet has a negative balance.")
          (pending_txs py hub setting fuel a.id >>= drain_settled py hub setting fuel a) m d m' h in
      let (txs, m1, listed, rest') =
        bind_inverse (pending_txs py hub setting fuel a.id) (drain_settled py hub setting fuel a) m
          d m' rest in
      let (none_pending, last) =
        raise_if_inverse (any txs)
          (pending "Wallet has pending transactions and cannot be drained.")
          (empty_out py hub setting fuel a) m1 d m' rest' in
      let nonneg = le_of_not-ltb a.balance_msat (pos 0) sign in
      (nonneg, empty_out-IsDrained a d m1 m' shows nonneg last)

  -- Where the hub answers a request for a wallet by showing it, and a drain ends well: the wallet was
  -- found; its balance was not negative; it is what was drained in whole satoshis with the dust that is
  -- reported, which is at least 0 and below a satoshi; and nothing was drained, or the hub, asked for
  -- the wallet with nothing asked behind that, showed it with just the dust as its balance.
  pub drain_wallet-IsDrained :
      (identifier : String) (d : Drained) (m m' : Managed S)
      → ShowsWallets
      → drain_wallet py hub setting fuel identifier m ≡ (ok d, m')
      → (a : AppDict) × (m1 : Managed S) × (find_managed_app py hub setting fuel identifier m
          ≡ (ok (some a), m1))
        × (pos 0 ≤ℤ a.balance_msat)
        × IsDrained a d m'
  unfolding drain_wallet
  drain_wallet-IsDrained identifier d m m' shows h =
      let (found, m1, searched, rest) =
        bind_inverse (find_managed_app py hub setting fuel identifier)
          (drain_found py hub setting fuel) m d m' h in
      let (a, is_it, last) =
        or_raise_inverse found not_found (drain_app py hub setting fuel) m1 d m' rest in
      let (sign, drained) = drain_app-IsDrained a d m1 m' shows last in
      (a, m1, rw (← is_it) searched, sign, drained)

  -- The hub's last words before a wallet is deleted, and the deletion.
  abbrev pub IsRemoved : AppDict → Drained → Managed S → Type 0
  IsRemoved a d m =
      (before : Managed S) × (x : Answer) × (ask py hub setting fuel (Call.delete_app a.app_pubkey)
          before
        ≡ (ok x, m))
      × Reported a.id d.dust_msat before

  remove_empty-IsRemoved :
      (a : AppDict) (drained d : Drained) (m m' : Managed S)
      → ShowsWallets
      → remove_empty py hub setting fuel a drained m ≡ (ok d, m')
      → (pos 0 ≤ℤ d.dust_msat) × (d.dust_msat <ℤ pos 1000) × IsRemoved a d m'
  remove_empty-IsRemoved a drained d m m' shows h =
      let (answer, m1, asked, rest) =
        bind_inverse (ask py hub setting fuel (Call.one_app a.id))
          (remove_checked py hub setting fuel a drained) m d m' h in
      let (lower, rest1) =
        raise_if_inverse (ltb_ℤ (balance_of answer) (pos 0))
          (negative "Wallet has a negative final balance and cannot be deleted.")
          (remove_if_empty py hub setting fuel a drained answer) m1 d m' rest in
      let (upper, rest2) =
        raise_if_inverse (leb_ℤ (pos 1000) (balance_of answer))
          (incomplete "Drain verification failed: funds still remain.")
          (remove_keyed py hub setting fuel a drained answer) m1 d m' rest1 in
      let (keyed, rest3) =
        raise_if_inverse (not (nonempty a.app_pubkey))
          (no_pubkey "Cannot delete app: nostr pubkey not available.")
          (remove py hub setting fuel a drained answer) m1 d m' rest2 in
      let (x, m2, deleted, last) =
        bind_inverse (ask py hub setting fuel (Call.delete_app a.app_pubkey))
          (λ _. pure (removed py hub setting fuel drained answer)) m1 d m' rest3 in
      let (result, state) =
        pure_inverse (removed py hub setting fuel drained answer) d m2 m' last in
      rw (← result) (
        le_of_not-ltb (balance_of answer) (pos 0) lower,
        lt_of_not-leb (pos 1000) (balance_of answer) upper,
        (
          m1,
          x,
          rw (← state) deleted,
          asked-Reported a.id (balance_of answer) m m1 answer shows asked refl,
        ),
      )

  -- Where the hub answers a request for a wallet by showing it, and a deletion ends well: the wallet
  -- was found; before the request to delete it, the hub, asked for the wallet, showed it with a balance
  -- that is at least 0 and below a satoshi, which is the dust that is reported; and the state that is
  -- left is that of the request to delete.
  pub delete_wallet-IsRemoved :
      (identifier : String) (d : Drained) (m m' : Managed S)
      → ShowsWallets
      → delete_wallet py hub setting fuel identifier m ≡ (ok d, m')
      → (a : AppDict) × (m1 : Managed S) × (find_managed_app py hub setting fuel identifier m
          ≡ (ok (some a), m1))
        × (pos 0 ≤ℤ d.dust_msat)
        × (d.dust_msat <ℤ pos 1000)
        × IsRemoved a d m'
  unfolding delete_wallet
  delete_wallet-IsRemoved identifier d m m' shows h =
      let (found, m1, searched, rest) =
        bind_inverse (find_managed_app py hub setting fuel identifier)
          (delete_found py hub setting fuel identifier) m d m' h in
      let (a, is_it, rest1) =
        or_raise_inverse found not_found (delete_app py hub setting fuel identifier) m1 d m' rest in
      let (txs, m2, listed, rest2) =
        bind_inverse (pending_txs py hub setting fuel a.id)
          (delete_settled py hub setting fuel identifier a) m1 d m' rest1 in
      let (none_pending, rest3) =
        raise_if_inverse (any txs)
          (pending "Wallet has pending transactions and cannot be deleted.")
          (drain_wallet py hub setting fuel identifier >>= remove_empty py hub setting fuel a) m2 d
          m' rest2 in
      let (drained, m3, emptied, last) =
        bind_inverse (drain_wallet py hub setting fuel identifier)
          (remove_empty py hub setting fuel a) m2 d m' rest3 in
      let (lower, upper, gone) = remove_empty-IsRemoved a drained d m3 m' shows last in
      (a, m1, rw (← is_it) searched, lower, upper, gone)

  -- Where the hub's last word is a balance below zero or of a satoshi or more, nothing is deleted: the
  -- state is the one that this answer left, and the deletion raises.
  pub remove_empty-spares :
      (a : AppDict) (drained : Drained) (m m' : Managed S) (answer : Answer)
      → ask py hub setting fuel (Call.one_app a.id) m ≡ (ok answer, m')
      → (balance_of answer <ℤ pos 0) ⊎ (pos 1000 ≤ℤ balance_of answer)
      → (e : Exc) × (remove_empty py hub setting fuel a drained m ≡ (raised e, m'))
  remove_empty-spares a drained m m' answer asked outside =
      rw
        (bind_ok (ask py hub setting fuel (Call.one_app a.id)) m m'
          (remove_checked py hub setting fuel a drained) answer asked)
        (elim (Bool-cases (ltb_ℤ (balance_of answer) (pos 0))) [
          | inl below ↦ rw below (_, refl)
          | inr not_below ↦
              let much : leb_ℤ (pos 1000) (balance_of answer) ≡ true =
                above (balance_of answer) outside not_below in
              rw (not_below, much) (_, refl)
        ])
    where
      above :
          (z : ℤ)
          → (z <ℤ pos 0) ⊎ (pos 1000 ≤ℤ z)
          → ltb_ℤ z (pos 0) ≡ false
          → leb_ℤ (pos 1000) z ≡ true
      above z h k = ground arith
