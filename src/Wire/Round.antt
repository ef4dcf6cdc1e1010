-- ===== src/Wire/Round.antt =====
-- When a `Write` of the protocol and a `Read` of it belong together.
use iocp_multi_threading_cha.Prelude.{
  ℕ, zero, suc, ◌-◌, ◌%◌, ◌/◌, ◌^◌, ◌==◌, ◌≡◌, ◌≤◌, ◌<◌, ◌∙◌, refl, sym, ap, Bool, true, false, not,
  Option, none, some, List, [], ◌∷◌, ◌++◌, ltb, if◌then◌else◌, length, take, drop, length-append,
  take-all, append_assoc, append-nil, Bool-cases, inl, inr, arith,
}
use mathlib.Core.Option.{some-injective}
use iocp_multi_threading_cha.Session.{Bytes}
use iocp_multi_threading_cha.Wire.{
  BufferReader, BufferWriter, Read, Write, ◌>>=◌, return, finish, ◌>=>◌, little_endian, word,
  read_bytes, read_word, read_bool, read_string, write_bytes, write_word, write_bool, write_string,
  write_each, read_each, write_vector, read_vector,
}

-- What `put` writes, when it does not run out of room, `get` reads as `a`, and no byte more.
pub record Round {A : Type 0} (put : Write) (get : Read A) (a : A) : Type 0 where
  pub reads :
      (w w' : BufferWriter)
      → put w ≡ some w'
      → length w.written ≤ w.size
      → (body : Bytes) × (w' ≡ record w { written = w.written ++ body })
        × (length w'.written ≤ w.size)
        × ((post : Bytes)
            → get (record { unread = body ++ post; is_valid = true })
              ≡ (some a, record { unread = post; is_valid = true }))

take-front : (p rest : Bytes) → take (length p) (p ++ rest) ≡ p
take-front [] rest = refl
take-front (b ∷ p) rest = ap (λ l. b ∷ l) (take-front p rest)

drop-front : (p rest : Bytes) → drop (length p) (p ++ rest) ≡ rest
drop-front [] rest = refl
drop-front (b ∷ p) rest = drop-front p rest

length-little_endian : (k v : ℕ) → length (little_endian k v) ≡ k
length-little_endian zero v = refl
length-little_endian (suc k) v = ap suc (length-little_endian k (v / 256))

word-little_endian : (k v : ℕ) → v < 256 ^ k → word (little_endian k v) ≡ v
word-little_endian zero v h = omega arith
word-little_endian (suc k) v h = omega (arith, word-little_endian k (v / 256) (omega arith))

same : {w w' : BufferWriter} → ◌≡◌ {A = Option BufferWriter} (some w) (some w') → w' ≡ w
same {w} {w'} e = sym (some-injective w w' e)

pub read_bytes-front :
    (src post : Bytes)
    → read_bytes (length src) (record { unread = src ++ post; is_valid = true })
      ≡ (some src, record { unread = post; is_valid = true })
unfolding read_bytes
read_bytes-front src post =
    let enough : ltb (length (src ++ post)) (length src) ≡ false =
      ground (arith, length-append src post) in
    rw (enough, take-front src post, drop-front src post) refl

pub Round-bytes : (src : Bytes) → Round (write_bytes src) (read_bytes (length src)) src
unfolding write_bytes read_bytes
Round-bytes src = record { reads = λ w w' e h. at w w' e h }
  where
    at :
        (w w' : BufferWriter)
        → write_bytes src w ≡ some w'
        → length w.written ≤ w.size
        → (body : Bytes) × (w' ≡ record w { written = w.written ++ body })
          × (length w'.written ≤ w.size)
          × ((post : Bytes)
              → read_bytes (length src) (record { unread = body ++ post; is_valid = true })
                ≡ (some src, record { unread = post; is_valid = true }))
    at w w' e h = elim (Bool-cases (ltb (w.size - length w.written) (length src))) [
      | inl full ↦ absurd (ground (arith, full, e))
      | inr room ↦
          let e' : w' ≡ record w { written = w.written ++ src } = same (rw (← e, room) refl) in
          (
            src,
            e',
            rw (e') (ground (arith, length-append w.written src, room)),
            read_bytes-front src,
          )
    ]

-- A read that succeeds goes on with its result.
pub bind-some :
    {A B : Type 0} {r r' : BufferReader} {a : A} (get : Read A) (f : A → Read B)
    → get r ≡ (some a, r')
    → (get >>= f) r ≡ f a r'
bind-some get f e = ap (λ o. elim o.0 [ none ↦ (none, o.1) | some x ↦ f x o.1 ]) e

pub Round-then :
    {A B : Type 0} {put next : Write} {get : Read A} {a : A} {b : B} (k : A → Read B)
    → Round put get a
    → Round next (k a) b
    → Round (put >=> next) (get >>= k) b
Round-then {put = put} {next = next} {get = get} {a = a} {b = b} k p q = record {
  reads = λ w w' e h. at w w' e h (put w) refl;
}
  where
    at :
        (w w' : BufferWriter)
        → (put >=> next) w ≡ some w'
        → length w.written ≤ w.size
        → (o : Option BufferWriter) → put w ≡ o
        → (body : Bytes) × (w' ≡ record w { written = w.written ++ body })
          × (length w'.written ≤ w.size)
          × ((post : Bytes)
              → (get >>= k) (record { unread = body ++ post; is_valid = true })
                ≡ (some b, record { unread = post; is_valid = true }))
    at w w' e h none f = absurd (ground (arith, f, e))
    at w w' e h (some m) f =
        let (x, xe, xh, xr) = p.reads w m f h in
        let sized : m.size ≡ w.size = ap (λ v. v.size) xe in
        let chained : (put >=> next) w ≡ next m = rw (◌>=>◌, f) refl in
        let (y, ye, yh, yr) = q.reads m w' (sym chained ∙ e) (omega (arith, xh, sized)) in
        let e' : w' ≡ record w { written = w.written ++ (x ++ y) } =
          ye
          ∙ ap {A = BufferWriter} (λ v. record v { written = v.written ++ y }) xe
          ∙ rw (append_assoc w.written x y) refl in
        (
          x ++ y,
          e',
          omega (arith, yh, sized),
          λ post. rw (append_assoc x y post) (bind-some get k (xr (y ++ post)) ∙ yr post),
        )

pub Round-return : {A : Type 0} (a : A) → Round (λ w. some w) (return a) a
Round-return a = record {
  reads = λ w w' e h. ([], rw (append-nil w.written) (same e), rw (same e) h, λ post. refl);
}

pub Round-finish : {A : Type 0} (a : A) → Round (λ w. some w) (finish a) a
Round-finish a = record {
  reads = λ w w' e h. ([], rw (append-nil w.written) (same e), rw (same e) h, λ post. refl);
}

pub Round-map :
    {A B : Type 0} {put : Write} {get : Read A} {a : A} (f : A → B)
    → Round put get a
    → Round put (get >>= λ x. return (f x)) (f a)
Round-map {get = get} {a = a} f p = record {
  reads = λ w w' e h.
      let (x, xe, xh, xr) = p.reads w w' e h in
      (x, xe, xh, λ post. bind-some get (λ x. return (f x)) (xr post));
}

Round-as_word :
    (bs : Bytes) (n v : ℕ)
    → length bs ≡ n
    → word bs ≡ v
    → Round (write_bytes bs) (read_bytes n >>= λ bytes. return (word bytes)) v
Round-as_word bs n v e f = rw (← e, ← f) (Round-map word (Round-bytes bs))

pub Round-word : (width v : ℕ) → v < 256 ^ width → Round (write_word width v) (read_word width) v
unfolding write_word read_word
Round-word width v h =
    Round-as_word (little_endian width v) width v (length-little_endian width v)
      (word-little_endian width v h)

pub Round-bool : (b : Bool) → Round (write_bool b) read_bool b
unfolding write_bool read_bool
Round-bool true = Round-map (λ v. not (v == 0)) (Round-word 1 1 (omega arith))
Round-bool false = Round-map (λ v. not (v == 0)) (Round-word 1 0 (omega arith))

Round-nothing : Round (λ w. some w) (read_bytes 0) []
unfolding read_bytes
Round-nothing = record {
  reads = λ w w' e h. ([], rw (append-nil w.written) (same e), rw (same e) h, λ post. ground arith);
}

Round-text :
    (str : Bytes)
    → Round
        (if ltb 0 (length str) then write_bytes str else (λ w. some w))
        (read_bytes (length str))
        str
Round-text [] = Round-nothing
Round-text (b ∷ str) =
    let some_bytes : ltb 0 (suc (length str)) ≡ true = ground arith in
    rw (some_bytes) (Round-bytes (b ∷ str))

pub Round-string : (str : Bytes) → length str < 65536 → Round (write_string str) read_string str
unfolding write_string read_string
Round-string str h =
    rw (same_length, take-all (length str) str (omega arith))
      (Round-then (λ len. read_bytes len) (Round-word 2 (length str) (omega arith))
        (Round-text str))
  where
    same_length : length str % 65536 ≡ length str
    same_length = omega arith

abbrev pub Each : {A : Type 0} → (A → Type 0) → List A → Type 0
Each P [] = Unit
Each P (a ∷ items) = P a × Each P items

Round-Each :
    {A : Type 0} (put : A → Write) (get : Read A) (items : List A)
    → Each (λ a. Round (put a) get a) items
    → Round (write_each put items) (read_each get (length items)) items
unfolding write_each read_each
Round-Each put get [] rs = record {
  reads = λ w w' e h. ([], rw (append-nil w.written) (same e), rw (same e) h, λ post. refl);
}
Round-Each put get (a ∷ items) (r, rs) =
    Round-then (λ x. read_each get (length items) >>= λ xs. return (x ∷ xs)) r
      (Round-map (λ xs. a ∷ xs) (Round-Each put get items rs))

pub Round-vector :
    {A : Type 0} (put : A → Write) (get : Read A) (items : List A)
    → length items < 65536
    → Each (λ a. Round (put a) get a) items
    → Round (write_vector put items) (read_vector get) items
unfolding write_vector read_vector
Round-vector put get items h rs = rw (same_length) (
    Round-then (λ n. read_each get n) (Round-word 2 (length items) (omega arith))
      (Round-Each put get items rs))
  where
    same_length : length items % 65536 ≡ length items
    same_length = omega arith
