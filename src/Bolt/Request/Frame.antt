-- ===== src/Bolt/Request/Frame.antt =====
-- The bytes of a request, as src/protocol/bolt/bolt_protocol.cpp writes them.
use sofa_bolt_cpp.Base.{
  ℕ, ◌+◌, ◌%◌, ◌^◌, ◌≤◌, ◌<◌, ◌≡◌, subst, List, [], ◌∷◌, ◌++◌, arith, length, take, append-nil,
  append_assoc, length-append, take-of_length_le,
}
use sofa_bolt_cpp.IoBuffer.{Memory, Buffer}
use sofa_bolt_cpp.IoBuffer.Append.{append}
use sofa_bolt_cpp.IoBuffer.Append.Contents.{Appends, Appends-trans, append-Appends}
use sofa_bolt_cpp.Bolt.Wire.{be32}
use sofa_bolt_cpp.Bolt.Response.Encode.{sized, encode_entries}
use sofa_bolt_cpp.Bolt.Request.{
  Request, append_kv, service_key, sofa_service_key, method_key, trace_id_key, put_entries,
}

-- Appending on, where there is room for both parts.
pub append-then :
    {m : Memory} {b : Buffer} {xs : List ℕ} {r : Memory × Buffer} (ys : List ℕ)
    → Appends m b xs r
    → length xs + length ys ≤ m.room
    → Appends m b (xs ++ ys) (append r.0 r.1 ys)
append-then {r = r} ys a room =
    Appends-trans a (append-Appends r.0 r.1 ys a.valid a.holds (omega (arith, a.spent)))

-- A string behind its length, as two appends.
sized-then :
    {m : Memory} {b : Buffer} {xs : List ℕ} {r : Memory × Buffer} (s : List ℕ)
    → Appends m b xs r
    → length s < 2 ^ 16
    → length xs + (4 + length s) ≤ m.room
    → let size = length s % 2 ^ 32 in
      let (m', b') = append r.0 r.1 (be32 size) in
      Appends m b (xs ++ sized s) (append m' b' (take size s))
sized-then {m} {b} {xs} {r} s a small room =
    let whole : length s % 2 ^ 32 ≡ length s = omega (arith, small) in
    let first = append-then (be32 (length s)) a (omega arith) in
    let size : length (xs ++ be32 (length s)) ≡ length xs + 4 =
      omega (arith, length-append xs (be32 (length s))) in
    rw (whole, take-of_length_le (length s) s (omega arith))
      (subst
        (λ bs.
          Appends m b bs
            (append (append r.0 r.1 (be32 (length s))).0 (append r.0 r.1 (be32 (length s))).1 s))
        (append_assoc xs (be32 (length s)) s) (append-then s first (omega arith)))

-- `appendBoltHeaderKV` appends the key and the value, each behind its length, and returns how many
-- bytes these are.
append_kv-Appends :
    {m : Memory} {b : Buffer} {xs : List ℕ} {r : Memory × Buffer} (key value : List ℕ)
    → Appends m b xs r
    → length key < 2 ^ 16
    → length value < 2 ^ 16
    → length xs + (8 + length key + length value) ≤ m.room
    → let (m', b', n) = append_kv r.0 r.1 key value in
      Appends m b (xs ++ (sized key ++ sized value)) (m', b') × (n ≡ 8 + length key + length value)
unfolding append_kv
append_kv-Appends {m} {b} {xs} {r} key value a k v room =
    let size : length (xs ++ sized key) ≡ length xs + (4 + length key) =
      omega (arith, length-append xs (sized key)) in
    (
      subst
          (λ bs. Appends m b bs ((append_kv r.0 r.1 key value).0, (append_kv r.0 r.1 key value).1))
          (append_assoc xs (sized key) (sized value))
          (sized-then value (sized-then key a k (omega arith)) v (omega arith)),
      omega arith,
    )

-- The header map of a request.
abbrev pub entries : Request → List (List ℕ × List ℕ)
entries req =
    (service_key, req.service)
    ∷ (sofa_service_key, req.service)
    ∷ (method_key, req.method)
    ∷ (trace_id_key, req.trace_id)
    ∷ []

regroup :
    (xs a b c d e f g h : List ℕ)
    → (((xs ++ (a ++ b)) ++ (c ++ d)) ++ (e ++ f)) ++ (g ++ h)
      ≡ xs ++ (a ++ (b ++ (c ++ (d ++ (e ++ (f ++ (g ++ (h ++ []))))))))
regroup xs a b c d e f g h = simp (append_assoc, append-nil)

-- The bytes of the entries without their keys.
abbrev pub entries_size : Request → ℕ
entries_size req =
    113 + length req.service + length req.service + length req.method + length req.trace_id

length-sized : (s : List ℕ) → length (sized s) ≡ 4 + length s
length-sized s = omega (arith, length-append (be32 (length s)) s)

length-entry :
    (k v rest : List ℕ)
    → length (sized k ++ (sized v ++ rest)) ≡ 8 + length k + length v + length rest
length-entry k v rest = omega (
  arith,
  length-append (sized k) (sized v ++ rest),
  length-append (sized v) rest,
  length-sized k,
  length-sized v,
)

pub length-entries : (req : Request) → length (encode_entries (entries req)) ≡ entries_size req
length-entries req =
    let four : List (List ℕ × List ℕ) = (trace_id_key, req.trace_id) ∷ [] in
    let three : List (List ℕ × List ℕ) = (method_key, req.method) ∷ four in
    omega (
      arith,
      length-entry service_key req.service
          (encode_entries ((sofa_service_key, req.service) ∷ three)),
      length-entry sofa_service_key req.service (encode_entries three),
      length-entry method_key req.method (encode_entries four),
      length-entry trace_id_key req.trace_id [],
    )

length-then :
    (xs k v : List ℕ) → length (xs ++ (sized k ++ sized v)) ≡ length xs + 8 + length k + length v
length-then xs k v = omega (
  arith,
  length-append xs (sized k ++ sized v),
  length-append (sized k) (sized v),
  length-sized k,
  length-sized v,
)

-- The entries of the header map follow each other, and `header_len` is what they take, where that
-- fits into 16 bits.
pub put_entries-Appends :
    {m : Memory} {b : Buffer} {xs : List ℕ} {r : Memory × Buffer} (req : Request)
    → Appends m b xs r
    → entries_size req < 2 ^ 16
    → length xs + entries_size req ≤ m.room
    → let (m', b', n) = put_entries r.0 r.1 req in
      Appends m b (xs ++ encode_entries (entries req)) (m', b') × (n ≡ entries_size req)
unfolding put_entries
put_entries-Appends {m} {b} {xs} {r} req a small room =
    let service = sized service_key ++ sized req.service in
    let sofa_service = sized sofa_service_key ++ sized req.service in
    let method = sized method_key ++ sized req.method in
    let s₁ = length-then xs service_key req.service in
    let s₂ = length-then (xs ++ service) sofa_service_key req.service in
    let s₃ = length-then ((xs ++ service) ++ sofa_service) method_key req.method in
    let (d₁, n₁) =
      append_kv-Appends service_key req.service a (omega arith) (omega arith) (omega arith) in
    let (d₂, n₂) =
      append_kv-Appends sofa_service_key req.service d₁ (omega arith) (omega arith) (omega arith) in
    let (d₃, n₃) =
      append_kv-Appends method_key req.method d₂ (omega arith) (omega arith) (omega arith) in
    let (d₄, n₄) =
      append_kv-Appends trace_id_key req.trace_id d₃ (omega arith) (omega arith) (omega arith) in
    (
      subst (λ bs. Appends m b bs ((put_entries r.0 r.1 req).0, (put_entries r.0 r.1 req).1))
          (regroup xs (sized service_key) (sized req.service) (sized sofa_service_key)
            (sized req.service) (sized method_key) (sized req.method) (sized trace_id_key)
            (sized req.trace_id))
          d₄,
      rw (n₁, n₂, n₃, n₄) (omega arith),
    )
