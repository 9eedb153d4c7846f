-- ===== src/Class/Builds/Laws.antt =====
-- The operations of the builds on classes: which classes they tell apart, and their text.
use eyeq.Common.{ℕ, ◌%◌, ◌^◌, ◌<◌, ◌≡◌, sym, ap, ◌∙◌, true, arith, ◌==◌, ==_iff, sub32, sub64}
use eyeq.Common.Int.{ℤ, pos, negsuc, signed32, to_u32}
use eyeq.Class.Builds.{
  word_cmp, mark_show, mark_parse, mark_text, port_show, port_parse, port_text, dev_cmp, is_zero,
}

zero_word : (w : ℕ) → is_zero (signed32 w) ≡ (w == 0)
zero_word w = ground arith

word_cmp-zero : (a b : ℕ) → is_zero (word_cmp a b) ≡ (sub32 a b == 0)
unfolding word_cmp
word_cmp-zero a b = zero_word (sub32 a b)

dev_cmp-zero : (a b : ℕ) → is_zero (dev_cmp a b) ≡ (sub64 a b % 2 ^ 32 == 0)
unfolding dev_cmp
dev_cmp-zero a b = zero_word (sub64 a b % 2 ^ 32)

zero : {z : ℤ} → is_zero z ≡ true → z ≡ pos 0
zero {z = pos n} e = ap pos ((==_iff n 0).0 e)
zero {z = negsuc n} e = absurd (cc)

-- The comparison of words.
word_cmp_iff :
    (a b : ℕ)
    → a < 2 ^ 32
    → b < 2 ^ 32
    → (word_cmp a b ≡ pos 0 → a ≡ b) × (a ≡ b → word_cmp a b ≡ pos 0)
word_cmp_iff a b ha hb = (
  λ e.
      let gone = (==_iff (sub32 a b) 0).0 (sym (word_cmp-zero a b) ∙ ap is_zero e) in
      omega (arith, gone, ha, hb),
  λ e. zero (word_cmp-zero a b ∙ (==_iff (sub32 a b) 0).1 (omega (arith, e, ha, hb))),
)

-- The comparison of addresses.
dev_cmp_iff :
    (a b : ℕ)
    → a < 2 ^ 64
    → b < 2 ^ 64
    → (dev_cmp a b ≡ pos 0 → a % 2 ^ 32 ≡ b % 2 ^ 32)
      × (a % 2 ^ 32 ≡ b % 2 ^ 32 → dev_cmp a b ≡ pos 0)
dev_cmp_iff a b ha hb = (
  λ e.
      let gone = (==_iff (sub64 a b % 2 ^ 32) 0).0 (sym (dev_cmp-zero a b) ∙ ap is_zero e) in
      omega (arith, gone, ha, hb),
  λ e. zero (dev_cmp-zero a b ∙ (==_iff (sub64 a b % 2 ^ 32) 0).1 (omega (arith, e, ha, hb))),
)

-- The comparison that the builds by mark, by IP address and by port share is 0 exactly for equal
-- classes; that of the build by device is 0 exactly for addresses whose low 32 bits agree, so that it
-- takes some devices for one; and the builds by mark and by port read back the class that they print.
-- (Marks and addresses are words of 32 bits, devices' addresses of 64 and ports of 16, and `htons` of
-- the port is a port and undoes itself.)
pub classes_told_apart :
    (htons : ℕ → ℕ) (a b dev1 dev2 mark port : ℕ)
    → a < 2 ^ 32
    → b < 2 ^ 32
    → dev1 < 2 ^ 64
    → dev2 < 2 ^ 64
    → mark < 2 ^ 32
    → port < 2 ^ 16
    → htons port < 2 ^ 16
    → htons (htons port) ≡ port
    → (word_cmp a b ≡ pos 0 → a ≡ b)
      × (a ≡ b → word_cmp a b ≡ pos 0)
      × (dev_cmp dev1 dev2 ≡ pos 0 → dev1 % 2 ^ 32 ≡ dev2 % 2 ^ 32)
      × (dev1 % 2 ^ 32 ≡ dev2 % 2 ^ 32 → dev_cmp dev1 dev2 ≡ pos 0)
      × (mark_text.parse (mark_text.show mark) ≡ mark)
      × ((port_text htons).parse ((port_text htons).show port) ≡ port)
unfolding mark_show mark_parse port_show port_parse
classes_told_apart htons a b dev1 dev2 mark port ha hb h1 h2 hm hp below back =
    let (apart, same) = word_cmp_iff a b ha hb in
    let (low, confused) = dev_cmp_iff dev1 dev2 h1 h2 in
    let whole : port % 2 ^ 16 ≡ port = omega arith in
    let cut : htons port % 2 ^ 32 % 2 ^ 16 ≡ htons port = omega (arith, below) in
    (apart, same, low, confused, mark_back mark hm, rw (whole, cut) back)
  where
    mark_back : (klass : ℕ) → klass < 2 ^ 32 → to_u32 (signed32 klass) ≡ klass
    mark_back klass small = ground arith
