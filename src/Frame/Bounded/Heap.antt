-- ===== src/Frame/Bounded/Heap.antt =====
-- A frame that lies in the frame heap, and one more object of it.
use bw2c.Base.{
  ℕ, ◌+◌, ◌≤◌, ◌≡◌, ◌∙◌, refl, ap, some, List, [], ◌∷◌, ◌++◌, arith, length, All, All-append,
}
use bw2c.Frame.{Frame, Header, PayloadObj, RoutingObj, append_kv, append_po, append_ro}
use bw2c.Frame.Bounds.{Taken}
use bw2c.Frame.Read.{struct_size}
use bw2c.Frame.RoundTrip.{kvs_need, pos_need, ros_need, frame_need}

-- An object with a complete value; the key of a header is as long as its buffer at most.
abbrev pub IsWholeHeader : Header → Type 0
IsWholeHeader h = (length h.key ≤ 31) × (h.len ≡ length h.value)

abbrev pub IsWholePo : PayloadObj → Type 0
IsWholePo p = p.polen ≡ length p.po

abbrev pub IsWholeRo : RoutingObj → Type 0
IsWholeRo r = r.rolen ≡ length r.ro

pub record IsBounded (heapsize : ℕ) (f : Frame) : Type 0 where
  pub in_heap : frame_need f ≤ heapsize
  pub hdrs_whole : All IsWholeHeader f.hdrs
  pub pos_whole : All IsWholePo f.pos
  pub ros_whole : All IsWholeRo f.ros

-- What one more object needs.
kvs_need_add : (l : List Header) (m k : ℕ) → kvs_need l (m + k) ≡ kvs_need l m + k
kvs_need_add [] m k = refl
kvs_need_add (h ∷ l) m k = omega (arith, kvs_need_add l m k)

pos_need_add : (l : List PayloadObj) (m k : ℕ) → pos_need l (m + k) ≡ pos_need l m + k
pos_need_add [] m k = refl
pos_need_add (p ∷ l) m k = omega (arith, pos_need_add l m k)

kvs_need-append :
    (l : List Header) (h : Header) (m : ℕ)
    → kvs_need (l ++ h ∷ []) m ≡ kvs_need l m + (struct_size + (length h.key + 1) + h.len)
kvs_need-append [] h m = omega arith
kvs_need-append (x ∷ l) h m = omega (arith, kvs_need-append l h m)

pos_need-append :
    (l : List PayloadObj) (p : PayloadObj) (m : ℕ)
    → pos_need (l ++ p ∷ []) m ≡ pos_need l m + (struct_size + 0 + p.polen)
pos_need-append [] p m = omega arith
pos_need-append (x ∷ l) p m = omega (arith, pos_need-append l p m)

ros_need-append :
    (l : List RoutingObj) (r : RoutingObj)
    → ros_need (l ++ r ∷ []) ≡ ros_need l + (struct_size + 0 + r.rolen)
ros_need-append [] r = omega arith
ros_need-append (x ∷ l) r = omega (arith, ros_need-append l r)

-- The frame so far, and what of the heap is used.
pub record Fills (heapsize used : ℕ) (f : Frame) : Type 0 where
  pub exact : frame_need f ≡ used
  pub bounded : IsBounded heapsize f

pub add_kv-Fills :
    (heapsize used used' : ℕ) (f : Frame) (h : Header)
    → Fills heapsize used f
    → Taken heapsize used
        (λ h. struct_size + (length h.key + 1) + h.len)
        IsWholeHeader
        (some h, used')
    → Fills heapsize used' (append_kv f (h ∷ []))
unfolding append_kv
add_kv-Fills heapsize used used' f h s (e, l, q) =
    let need = kvs_need-append f.hdrs h (pos_need f.pos (ros_need f.ros)) in
    record {
      exact = omega (arith, need, s.exact, e);
      bounded = record {
        in_heap = omega (arith, need, s.exact, e, l);
        hdrs_whole = All-append IsWholeHeader f.hdrs (h ∷ []) s.bounded.hdrs_whole (q, tt);
        pos_whole = s.bounded.pos_whole;
        ros_whole = s.bounded.ros_whole;
      };
    }

pub add_po-Fills :
    (heapsize used used' : ℕ) (f : Frame) (p : PayloadObj)
    → Fills heapsize used f
    → Taken heapsize used (λ p. struct_size + 0 + p.polen) IsWholePo (some p, used')
    → Fills heapsize used' (append_po f (p ∷ []))
unfolding append_po
add_po-Fills heapsize used used' f p s (e, l, q) =
    let need : frame_need (append_po f (p ∷ [])) ≡ frame_need f + (struct_size + 0 + p.polen) =
      ap (kvs_need f.hdrs) (pos_need-append f.pos p (ros_need f.ros)) ∙ kvs_need_add f.hdrs _ _ in
    record {
      exact = omega (arith, need, s.exact, e);
      bounded = record {
        in_heap = omega (arith, need, s.exact, e, l);
        hdrs_whole = s.bounded.hdrs_whole;
        pos_whole = All-append IsWholePo f.pos (p ∷ []) s.bounded.pos_whole (q, tt);
        ros_whole = s.bounded.ros_whole;
      };
    }

pub add_ro-Fills :
    (heapsize used used' : ℕ) (f : Frame) (r : RoutingObj)
    → Fills heapsize used f
    → Taken heapsize used (λ r. struct_size + 0 + r.rolen) IsWholeRo (some r, used')
    → Fills heapsize used' (append_ro f (r ∷ []))
unfolding append_ro
add_ro-Fills heapsize used used' f r s (e, l, q) =
    let need : frame_need (append_ro f (r ∷ [])) ≡ frame_need f + (struct_size + 0 + r.rolen) =
      ap (λ n. kvs_need f.hdrs (pos_need f.pos n)) (ros_need-append f.ros r)
      ∙ ap (kvs_need f.hdrs) (pos_need_add f.pos _ _)
      ∙ kvs_need_add f.hdrs _ _ in
    record {
      exact = omega (arith, need, s.exact, e);
      bounded = record {
        in_heap = omega (arith, need, s.exact, e, l);
        hdrs_whole = s.bounded.hdrs_whole;
        pos_whole = s.bounded.pos_whole;
        ros_whole = All-append IsWholeRo f.ros (r ∷ []) s.bounded.ros_whole (q, tt);
      };
    }
