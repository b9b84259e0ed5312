-- ===== src/Helpers/Bech32/Groups.antt =====
-- Regrouping bytes by five bits loses nothing: the groups write the same number, shifted by less than a
-- group.
use sovran_bitcoin.Base.{
  ℕ, zero, suc, ◌+◌, ◌*◌, ◌/◌, ◌%◌, ◌^◌, ◌<◌, ◌≡◌, refl, List, [], ◌∷◌, ◌++◌, length, length-append,
  All, arith,
}
use sovran_bitcoin.Helpers.Bech32.{emit, last_group, regroup, convertbits}

-- The number that digits write, the first one the highest, behind what was written before.
unfoldable pub number_from : ℕ → ℕ → List ℕ → ℕ
number_from base n [] = n
number_from base n (d ∷ ds) = number_from base (n * base + d) ds

pub number : ℕ → List ℕ → ℕ
unfolding number_from
number base ds = number_from base 0 ds

abbrev pub IsByte : ℕ → Type 0
IsByte b = b < 256

abbrev pub IsGroup : ℕ → Type 0
IsGroup d = d < 32

number_from-append :
    (base n d : ℕ) (ds : List ℕ)
    → number_from base n (ds ++ (d ∷ [])) ≡ number_from base n ds * base + d
unfolding number_from
number_from-append base n d [] = refl
number_from-append base n d (x ∷ xs) = number_from-append base (n * base + x) d xs

All-append : (ds : List ℕ) (d : ℕ) → All IsGroup ds → d < 32 → All IsGroup (ds ++ (d ∷ []))
All-append [] d h k = (k, tt)
All-append (x ∷ xs) d h k = (h.0, All-append xs d h.1 k)

-- What was written for the bytes that were read: their number but for the bits that wait.
record Wrote (read n acc bits : ℕ) (ret : List ℕ) : Type 0 where
  value : number_from 32 0 ret * 2 ^ bits + acc % 2 ^ bits ≡ n
  count : length ret * 5 + bits ≡ read * 8
  groups : All IsGroup ret

abbrev Goes : ℕ → ℕ → ℕ → ℕ × List ℕ → Type 0
Goes read n acc (bits, ret) = (bits < 5) × Wrote read n acc bits ret

-- One more group, behind which `bits` bits wait.
abbrev group : ℕ → ℕ → ℕ
group acc bits = acc / 2 ^ bits % 32

one_group :
    (read n acc acc' v old bits : ℕ) (ret : List ℕ)
    → Wrote read n acc old ret
    → bits < 5
    → old + 8 ≡ bits + 5
    → (number_from 32 0 ret * 32 + group acc' bits) * 2 ^ bits + acc' % 2 ^ bits ≡ n * 256 + v
    → Goes (read + 1) (n * 256 + v) acc' (bits, ret ++ (group acc' bits ∷ []))
one_group read n acc acc' v old bits ret w small e value = (
  small,
  record {
    value = rw (number_from-append 32 0 (group acc' bits) ret) value;
    count = omega (arith, w.count, length-append ret (group acc' bits ∷ []));
    groups = All-append ret (group acc' bits) w.groups (omega arith);
  },
)

two_groups :
    (read n acc acc' v old bits : ℕ) (ret : List ℕ)
    → Wrote read n acc old ret
    → bits < 5
    → old + 8 ≡ bits + 10
    → ((number_from 32 0 ret * 32 + group acc' (bits + 5)) * 32 + group acc' bits) * 2 ^ bits
        + acc' % 2 ^ bits
      ≡ n * 256 + v
    → Goes
        (read + 1)
        (n * 256 + v)
        acc'
        (bits, (ret ++ (group acc' (bits + 5) ∷ [])) ++ (group acc' bits ∷ []))
two_groups read n acc acc' v old bits ret w small e value =
    let once = ret ++ (group acc' (bits + 5) ∷ []) in
    (
      small,
      record {
        value =
            rw
              (
                number_from-append 32 0 (group acc' bits) once,
                number_from-append 32 0 (group acc' (bits + 5)) ret,
              )
              value;
        count = omega (
          arith,
          w.count,
          length-append ret (group acc' (bits + 5) ∷ []),
          length-append once (group acc' bits ∷ []),
        );
        groups =
            All-append once (group acc' bits)
              (All-append ret (group acc' (bits + 5)) w.groups (omega arith)) (omega arith);
      },
    )

next_byte :
    (read n acc bits v : ℕ) (ret : List ℕ)
    → bits < 5
    → v < 256
    → Wrote read n acc bits ret
    → Goes
        (read + 1)
        (n * 256 + v)
        (acc * 256 + v)
        (emit (bits + 8) 5 (acc * 256 + v) (bits + 8) ret)
unfolding emit
next_byte read n acc zero v ret small byte w =
    one_group read n acc (acc * 256 + v) v 0 3 ret w (omega arith) refl (omega (arith, w.value))
next_byte read n acc (suc zero) v ret small byte w =
    one_group read n acc (acc * 256 + v) v 1 4 ret w (omega arith) refl (omega (arith, w.value))
next_byte read n acc (suc (suc zero)) v ret small byte w =
    two_groups read n acc (acc * 256 + v) v 2 0 ret w (omega arith) refl (omega (arith, w.value))
next_byte read n acc (suc (suc (suc zero))) v ret small byte w =
    two_groups read n acc (acc * 256 + v) v 3 1 ret w (omega arith) refl (omega (arith, w.value))
next_byte read n acc (suc (suc (suc (suc zero)))) v ret small byte w =
    two_groups read n acc (acc * 256 + v) v 4 2 ret w (omega arith) refl (omega (arith, w.value))
next_byte read n acc (suc (suc (suc (suc (suc b))))) v ret small byte w = absurd (omega arith)

-- What the groups are in the end.
pub record Writes (read n : ℕ) (out : List ℕ) : Type 0 where
  pub pad : ℕ
  pub short : pad < 5
  pub count : length out * 5 ≡ read * 8 + pad
  pub value : number_from 32 0 out ≡ n * 2 ^ pad
  pub groups : All IsGroup out

padded :
    (read n acc bits pad d : ℕ) (ret : List ℕ)
    → Wrote read n acc bits ret
    → pad < 5
    → bits + pad ≡ 5
    → d < 32
    → number_from 32 0 ret * 32 + d ≡ n * 2 ^ pad
    → Writes read n (ret ++ (d ∷ []))
padded read n acc bits pad d ret w short e small value = record {
  pad = pad;
  short = short;
  count = omega (arith, w.count, length-append ret (d ∷ []));
  value = rw (number_from-append 32 0 d ret) value;
  groups = All-append ret d w.groups small;
}

rest_lem :
    (read n acc bits : ℕ) (ret : List ℕ)
    → bits < 5
    → Wrote read n acc bits ret
    → Writes read n (last_group 5 acc bits ret)
unfolding last_group
rest_lem read n acc zero ret small w = record {
  pad = 0;
  short = omega arith;
  count = omega (arith, w.count);
  value = omega (arith, w.value);
  groups = w.groups;
}
rest_lem read n acc (suc zero) ret small w =
    padded read n acc 1 4 (acc * 16 % 32) ret w (omega arith) refl (omega arith)
      (omega (arith, w.value))
rest_lem read n acc (suc (suc zero)) ret small w =
    padded read n acc 2 3 (acc * 8 % 32) ret w (omega arith) refl (omega arith)
      (omega (arith, w.value))
rest_lem read n acc (suc (suc (suc zero))) ret small w =
    padded read n acc 3 2 (acc * 4 % 32) ret w (omega arith) refl (omega arith)
      (omega (arith, w.value))
rest_lem read n acc (suc (suc (suc (suc zero)))) ret small w =
    padded read n acc 4 1 (acc * 2 % 32) ret w (omega arith) refl (omega arith)
      (omega (arith, w.value))
rest_lem read n acc (suc (suc (suc (suc (suc b))))) ret small w = absurd (omega arith)

regroup_lem :
    (bytes : List ℕ) (read n acc bits : ℕ) (ret : List ℕ)
    → All IsByte bytes
    → bits < 5
    → Wrote read n acc bits ret
    → Writes (read + length bytes) (number_from 256 n bytes) (regroup 8 5 acc bits ret bytes)
unfolding regroup number_from
regroup_lem [] read n acc bits ret bytes small w =
    let e : read + 0 ≡ read = omega arith in rw e (rest_lem read n acc bits ret small w)
regroup_lem (v ∷ vs) read n acc bits ret bytes small w =
    let next = next_byte read n acc bits v ret small bytes.0 w in
    let (bits', ret') = emit (bits + 8) 5 (acc * 256 + v) (bits + 8) ret in
    let e : read + suc (length vs) ≡ (read + 1) + length vs = omega arith in
    rw e (regroup_lem vs (read + 1) (n * 256 + v) (acc * 256 + v) bits' ret' bytes.1 next.0 next.1)

-- The number that the groups of a payload write is the number that its bytes write, shifted left by
-- fewer than five bits; there are as many groups as hold the bytes' bits with these; and every group
-- has five bits. (Every byte is below 256.)
pub convertbits-Writes :
    (bytes : List ℕ)
    → All IsByte bytes
    → Writes (length bytes) (number 256 bytes) (convertbits bytes 8 5)
unfolding convertbits number number_from
convertbits-Writes bytes good =
    let none_read : 0 + length bytes ≡ length bytes = omega arith in
    rw none_read at (
      regroup_lem bytes 0 0 0 0 [] good (omega arith)
        (record { value = refl; count = refl; groups = tt }))
