-- ===== src/Lib.antt =====
-- VoodooPS2 with FocalTech support: drivers for PS/2 keyboards, mice and touchpads behind an i8042
-- controller. The controller (VoodooPS2Controller/) reads bytes, hands each to the driver of its
-- port at interrupt time, and carries out requests, in which a driver talks to its device. A driver
-- cuts its bytes into packets in a ring buffer and works them off later from its work loop.
--
-- Common: numbers, lists, machine words and single bits. A word is a native number that wraps by
--   `%`; a signed word is its two's complement pattern.
-- Ring: the template RingBuffer of VoodooPS2Controller/ApplePS2Device.h, every method a function of
--   the array's length N and the buffer. Ring/Window and Ring/Queue say which bytes it stores.
-- FocalTech: the class ApplePS2FocalTech (FocalTech/VoodooPS2FocalTech.h and the six parts
--   FocalTech/Source/VoodooPS2FocalTech.part00.inc to part05.inc, which VoodooPS2FocalTech.cpp
--   includes). Its state is the record Driver; messages, timer calls and registry writes go to a
--   log. FocalTech/Packet holds the three decoders, FocalTech/Click the first half of reportState,
--   FocalTech/Touch sendTouchData, FocalTech/Report the rest of reportState, processPacket and
--   forceTimerFired, FocalTech/Stream interruptOccurred and packetReady, FocalTech/Setup detection,
--   setupHardware and power. Set-up uses the controller through the record Bus, the parameter of
--   its section: submitRequestAndBlock, setCommandByte and the count of AUX nubs.
-- Controller: the reads and writes of the ports in VoodooPS2Controller/VoodooPS2Controller.cpp, with
--   the history of the chip as a list of looks at its status port; Controller/Request is
--   processRequest and setCommandByteGated.
-- Mouse: ApplePS2Mouse (VoodooPS2Mouse/VoodooPS2Mouse.cpp), its byte stream, its packets and the
--   machine that fakes a middle button.
-- Keyboard: ApplePS2Keyboard (VoodooPS2Keyboard/VoodooPS2Keyboard.cpp), interruptOccurred, the
--   vector of held keys and what dispatchKeyboardEventWithPacket writes to the modifier state, with the two tables of
--   VoodooPS2Keyboard/ApplePS2ToADBMap.h in Keyboard/AdbMap and Keyboard/Flags.
-- Alps: ApplePS2ALPSGlidePoint (VoodooPS2Trackpad/VoodooPS2ALPSGlidePoint.cpp and .h). Alps/Stream is
--   interruptOccurred and packetReady, Alps/Packets the handler of each version, Alps/Decode the
--   decoders, with V7 and V8 below it, Alps/Bitmap alps_get_bitmap_points and alps_process_bitmap,
--   Alps/Touch alps_buttons, prepareVoodooInput and sendTouchData, Alps/Identify what identify
--   concludes from the reports of a pad. What is not in the repository is
--   the record Outside: the numbers of finger types, the clock and a curve of doubles. The handler of
--   version 4 leaves fields of its packet unset: they are its parameter.
-- Elan: ApplePS2Elan (VoodooPS2Trackpad/VoodooPS2Elan.cpp and .h). Elan/Check is
--   elantechDebounceCheckV2, elantechPacketCheckV1 to V4 and the parity table of elantechSetupPS2,
--   Elan/Absolute elantechRescale and elantechReportAbsoluteV1 to V3, Elan/Slots the status, head and
--   motion packets of version 4, Elan/Trackpoint elantechReportTrackpoint, Elan/Touch sendTouchData,
--   Elan/Stream interruptOccurred and packetReady, Elan/Query detection, elantechQueryInfo and
--   elantechSetProperties in a state monad over Option, Elan/Setup the registers, elantechSetupPS2,
--   message and setDevicePowerState. The last two take the record Bus of FocalTech/Setup and the port
--   as parameters.
-- Sentelic: ApplePS2SentelicFSP (VoodooPS2Trackpad/VoodooPS2SentelicFSP.cpp and .h), its byte stream
--   and packets; Sentelic/Registers is fsp_reg_read, fsp_reg_write and what is built on them.
-- Synaptics: the byte stream and the decoders of ApplePS2SynapticsTouchPad
--   (VoodooPS2Trackpad/VoodooPS2SynapticsTouchPad.cpp and .h); Synaptics/Fingers is
--   assignVirtualFinger, assignFingerType, freeAndMarkVirtualFingers, swapFingers and what they use,
--   Synaptics/Touch clip and sendTouchData. The numbers of MT2FingerType are the record FingerTypes.
-- Average: the template SimpleAverage of VoodooPS2Trackpad/VoodooPS2TrackpadCommon.h.
-- Examples: concrete states in which the conditions of the theorems hold.
--
-- Bounds and fuel: a ring holds at most 31 packets (191 bytes of 192 for FocalTech, 127 of 128 for
-- the mouse), and the loops over a ring get 33 rounds, one more than the packets and the final test
-- need; the loop of the ALPS driver gets 192 rounds, a packet being longer than a byte, the loop of the
-- Elan driver 49, its shortest packets having 4 bytes of 192, that of the Sentelic driver 33, and the
-- scan of a bitmap 32, a word's bits. The reads of a port count down from 20000 and 10000 as the
-- source does; between two idle looks they consume the history, so they end. RingBuffer's sums do not wrap for N up to 2 ^ 28.
--
-- Not modelled: registration with IOKit (start, stop, open, close, notifications), power states and
-- reset of the controller, its mux detection, the request queue and completion routines, locks and
-- delays; the keyboard's dispatch of key events beyond the modifiers, its custom maps and macros;
-- the mouse's start-up; the set-up of ALPS and Sentelic pads; the properties and HID notifications
-- of the Elan driver; renumberFingers, packetReady and the set-up of the Synaptics driver; the SMBus
-- companion in VoodooPS2Trackpad/; FocalTech/Source/FTE0001.inc; scripts, tests and documents. The types
-- of VoodooInput come from a submodule: their records here hold the fields that the driver writes. A packet
-- of version 4 that makes the Elan driver write behind its five virtual fingers writes nothing here.
pub mod Common
pub mod Ring
pub mod FocalTech
pub mod Controller
pub mod Mouse
pub mod Keyboard
pub mod Alps
pub mod Elan
pub mod Sentelic
pub mod Synaptics
pub mod Average
mod Examples
