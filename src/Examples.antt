-- ===== src/Examples.antt =====
-- Concrete states and runs: each main theorem applied to a state in which its conditions hold.
mod Pad
mod Clicks
mod Ports
mod Keys
mod Glide
mod Fingers
mod Pads
