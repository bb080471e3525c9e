-- ===== src/Frame/Free.antt =====
-- `bw2_frameFreeResources` of frame.c, as the sequence of the nodes that it frees. The successor of a node is
-- read before the node is freed.
use bw2c.Base.{◌+◌, ◌≡◌, List, [], ◌∷◌, ◌++◌, arith, length, length-append}
use bw2c.Frame.{Header, PayloadObj, RoutingObj, Frame}

data Node : Type 0 where
  header_node : Header → Node
  po_node : PayloadObj → Node
  ro_node : RoutingObj → Node

free_hdrs : List Header → List Node
free_hdrs [] = []
free_hdrs (hcurr ∷ hnext) = header_node hcurr ∷ free_hdrs hnext

free_pos : List PayloadObj → List Node
free_pos [] = []
free_pos (pcurr ∷ pnext) = po_node pcurr ∷ free_pos pnext

free_ros : List RoutingObj → List Node
free_ros [] = []
free_ros (rcurr ∷ rnext) = ro_node rcurr ∷ free_ros rnext

free_resources : Frame → List Node
free_resources frame = free_hdrs frame.hdrs ++ (free_pos frame.pos ++ free_ros frame.ros)

length-free_hdrs : (l : List Header) → length (free_hdrs l) ≡ length l
unfolding free_hdrs
length-free_hdrs [] = omega arith
length-free_hdrs (h ∷ l) = omega (arith, length-free_hdrs l)

length-free_pos : (l : List PayloadObj) → length (free_pos l) ≡ length l
unfolding free_pos
length-free_pos [] = omega arith
length-free_pos (p ∷ l) = omega (arith, length-free_pos l)

length-free_ros : (l : List RoutingObj) → length (free_ros l) ≡ length l
unfolding free_ros
length-free_ros [] = omega arith
length-free_ros (r ∷ l) = omega (arith, length-free_ros l)

-- As many nodes are freed as the frame has.
length-free_resources :
    (frame : Frame)
    → length (free_resources frame) ≡ length frame.hdrs + length frame.pos + length frame.ros
unfolding free_resources
length-free_resources frame = omega (
  arith,
  length-append (free_hdrs frame.hdrs) (free_pos frame.pos ++ free_ros frame.ros),
  length-append (free_pos frame.pos) (free_ros frame.ros),
  length-free_hdrs frame.hdrs,
  length-free_pos frame.pos,
  length-free_ros frame.ros,
)
