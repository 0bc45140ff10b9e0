-- ===== src/Run/Store/Reads.antt =====
-- Reading the payload area after a write.
use m_agent.Base.{
  String, ◌≡◌, ◌≢◌, refl, Option, some, [], ◌∷◌, arith, ◌==◌, ==_iff, ==_refl, String_eq, pair_eq,
  if◌then◌else◌,
}
use m_agent.Base.Dict.{Dict, get, put, get-put}
use m_agent.Run.Payload.{Bytes, Field, Field_eq, Fields}
use m_agent.Run.Store.{put_fields}

-- The bytes of a field after a list of writes to one Run: the last write of it, if there is one.
abbrev pub overlay : Field → Fields → Option Bytes → Option Bytes
overlay g [] before = before
overlay g ((f, encoded) ∷ fields) before =
    overlay g fields (if f == g then some encoded else before)

get-put_field :
    (r : String) (f g : Field) (encoded : Bytes) (d : Dict (String × Field) Bytes)
    → get (r, g) (put (r, f) encoded d) ≡ (if f == g then some encoded else get (r, g) d)
get-put_field r f g encoded d = rw (get-put, ==_refl r) (ground arith)

pub get-put_fields :
    (r : String) (g : Field) (fields : Fields) (d : Dict (String × Field) Bytes)
    → get (r, g) (put_fields r fields d) ≡ overlay g fields (get (r, g) d)
unfolding put_fields
get-put_fields r g [] d = refl
get-put_fields r g ((f, encoded) ∷ fields) d =
    rw (get-put_fields r g fields (put (r, f) encoded d), get-put_field r f g encoded d) refl

pub get-put_fields_ne :
    (r q : String) (g : Field) (fields : Fields) (d : Dict (String × Field) Bytes)
    → r ≢ q
    → get (q, g) (put_fields r fields d) ≡ get (q, g) d
unfolding put_fields
get-put_fields_ne r q g [] d h = refl
get-put_fields_ne r q g ((f, encoded) ∷ fields) d h = ground (
  arith,
  get-put_fields_ne r q g fields (put (r, f) encoded d) h,
  get-put (r, f) (q, g) encoded d,
  ==_iff r q,
)
