-- ===== src/Bolt/Response/Encode.antt =====
-- A response as a server writes it, for the layout that src/protocol/bolt/bolt_response.cpp reads.
use sofa_bolt_cpp.Base.{ℕ, ◌^◌, ◌<◌, ◌≡◌, List, [], ◌∷◌, ◌++◌, length, arith}
use sofa_bolt_cpp.Bolt.Wire.{be16, be32}
use sofa_bolt_cpp.Bolt.Response.{Header, ntoh}

abbrev pub hton : Header → List ℕ
hton h =
    h.proto ∷ h.type ∷ be16 h.cmdcode
    ++ (h.ver2 ∷ be32 h.request_id
        ++ (h.codec ∷ be16 h.status
            ++ (be16 h.class_len ++ (be16 h.header_len ++ be32 h.content_len))))

-- The fields fit their types.
pub record Fits (h : Header) : Type 0 where
  pub cmdcode : h.cmdcode < 2 ^ 16
  pub request_id : h.request_id < 2 ^ 32
  pub status : h.status < 2 ^ 16
  pub class_len : h.class_len < 2 ^ 16
  pub header_len : h.header_len < 2 ^ 16
  pub content_len : h.content_len < 2 ^ 32

-- A header that is written is read back.
pub ntoh-hton : (h : Header) → Fits h → ntoh (hton h) ≡ h
ntoh-hton h f = ground arith

-- A string behind its length, and the entries of a header map.
abbrev pub sized : List ℕ → List ℕ
sized s = be32 (length s) ++ s

abbrev pub encode_entries : List (List ℕ × List ℕ) → List ℕ
encode_entries [] = []
encode_entries ((k, v) ∷ es) = sized k ++ (sized v ++ encode_entries es)
